-- ===== src/Ingest/Scan/Runs.antt =====
-- apps/tmdb-ingest/src/jobs.rs: an execution of a scan's phase queues only states that follow.
use mathlib.Core.Path.{subst}
use tmdb_mirror.Prelude.{
  ℕ, zero, suc, ◌^◌, ◌<◌, ◌≡◌, refl, sym, ◌≢◌, inl, inr, Bool, true, false, ◌&&◌, List, [], ◌∷◌,
  map, Option, none, some, length, take, All, Result, ok, err, ℤ, pos, negsuc, Text, leb,
  Bool-cases, arith,
}
use tmdb_mirror.Domain.{MediaType}
use tmdb_mirror.Jobs.Model.{Platform, JobId, NewJob, SubmitOutcome}
use tmdb_mirror.Jobs.Repository.{Database}
use tmdb_mirror.Jobs.Worker.{JobExecutionError}
use tmdb_mirror.Ingest.Json.{Json}
use tmdb_mirror.Ingest.Payload.{
  AdminScanMode, AdminScanPhase, start, enrichment, seasons, completion, AdminScanPayload,
}
use tmdb_mirror.Ingest.Payload.Reading.{media_type_name}
use tmdb_mirror.Ingest.Build.{CatalogEnrichmentRow, CatalogSeasonRow, enrichment_job, season_job}
use tmdb_mirror.Ingest.Submit.{
  Transactions, M, after, pure, query, lift, count_new, answer_or_unavailable, ◌>>=◌,
  submit_ingest_child_jobs,
}
use tmdb_mirror.Ingest.Scan.{
  Catalog, CatalogPhaseBatch, last_id, collect, batch_of_rows, submitted_batch,
  enqueue_catalog_enrichment_batch, enqueue_catalog_season_batch, phase_batch, is_enrichment, is_tv,
  is_seasons, i64_of, skips_enriched,
}
use tmdb_mirror.Ingest.Scan.Next.{IsBatch}

-- An id behind the cursor, of a `bigint` column.
abbrev pub IsBehind : ℕ → ℤ → Type 0
IsBehind cursor (pos n) = (cursor < n) × (n < 2 ^ 63)
IsBehind cursor (negsuc n) = ⊥

-- The queries select rows behind the cursor.
pub record SelectsBehind {State : Type 0} (cat : Catalog State) : Type 0 where
  pub enrichment :
      (skip : Bool) (t : Text) (cursor limit : ℕ) (s : State) (rows : List CatalogEnrichmentRow)
      → (cat.enrichment_rows skip t cursor limit s).0 ≡ some rows
      → All (λ row. IsBehind cursor row.id) rows
  pub seasons :
      (skip : Bool) (cursor limit : ℕ) (s : State) (rows : List CatalogSeasonRow)
      → (cat.season_rows skip cursor limit s).0 ≡ some rows
      → All (λ row. IsBehind cursor row.id) rows

last_id-behind :
    (cursor c : ℕ) (i : ℤ) (ids : List ℤ) {n : ℕ}
    → All (IsBehind cursor) (i ∷ ids)
    → last_id c (i ∷ ids) ≡ ok n
    → (cursor < n) × (n < 2 ^ 63)
last_id-behind cursor c (pos i) [] h e = ground arith
last_id-behind cursor c (negsuc i) [] h e = absurd h.0
last_id-behind cursor c i (k ∷ ids) h e = last_id-behind cursor c k ids h.1 e

All-take-map :
    {Row : Type 0} (cursor size : ℕ) (id_of : Row → ℤ) (rows : List Row)
    → All (λ row. IsBehind cursor (id_of row)) rows
    → All (IsBehind cursor) (map id_of (take size rows))
All-take-map cursor zero id_of rows h = tt
All-take-map cursor (suc size) id_of [] h = tt
All-take-map cursor (suc size) id_of (row ∷ rows) h = (h.0, All-take-map cursor size id_of rows h.1)

-- What a run returns, if it returns.
abbrev pub Holds : {State A : Type 0} → (A → Type 0) → Result JobExecutionError A × State → Type 0
Holds holds (err e, s) = Unit
Holds holds (ok a, s) = holds a

after-Holds :
    {State A B : Type 0} (holds : B → Type 0) (r : Result JobExecutionError A × State)
    (next : A → M State B)
    → ((a : A) (s : State) → r.0 ≡ ok a → Holds holds (next a s))
    → Holds holds (after r next)
after-Holds holds (err e, s) next h = tt
after-Holds holds (ok a, s) next h = h a s refl

pub Holds-ok :
    {State A : Type 0} (holds : A → Type 0) (r : Result JobExecutionError A × State) (a : A)
    (s : State)
    → Holds holds r
    → r ≡ (ok a, s)
    → holds a
Holds-ok holds r a s h e = subst (Holds holds) e h

-- Two continuations that agree wherever the first step leads give the same run.
pub after-agree :
    {State A B : Type 0} (r : Result JobExecutionError A × State) (f g : A → M State B)
    → ((a : A) (s : State) → r ≡ (ok a, s) → f a s ≡ g a s)
    → after r f ≡ after r g
after-agree (err e, s) f g h = refl
after-agree (ok a, s) f g h = h a s refl

answered : {A : Type 0} (o : Option A) {a : A} → answer_or_unavailable o ≡ ok a → o ≡ some a
answered none h = cc
answered (some a) h = cc

module _ (p : Platform) (db : Database p.Value p.DateTime) (tx : Transactions db.State)
    (new_id : ℕ → JobId) (j : Json p.Value) (cat : Catalog db.State) where
  abbrev pub Moves : ℕ → CatalogPhaseBatch → Type 0
  Moves cursor batch =
      batch.done ≡ false → (cursor < batch.next_cursor) × (batch.next_cursor < 2 ^ 63)

  submitted_batch-Moves :
      (cursor : ℕ) (ids : List ℤ) (done : Bool) (outcomes : List SubmitOutcome) (s : db.State)
      → (done ≡ false → ids ≢ [])
      → All (IsBehind cursor) ids
      → Holds (Moves cursor) (submitted_batch p db tx new_id j cat cursor ids done outcomes s)
  unfolding submitted_batch
  submitted_batch-Moves cursor [] done outcomes s h k = λ more. absurd (h more refl)
  submitted_batch-Moves cursor (i ∷ ids) done outcomes s h k =
      after-Holds (Moves cursor) (lift (last_id cursor (i ∷ ids)) s)
        (λ n. pure (record { queued = count_new outcomes; next_cursor = n; done = done }))
        (λ n s' e more. last_id-behind cursor cursor i ids k e)

  some_ids :
      {Row : Type 0} (id_of : Row → ℤ) (size : ℕ) (rows : List Row)
      → leb (length rows) (suc size) ≡ false
      → map id_of (take (suc size) rows) ≢ []
  some_ids id_of size [] h e = ground arith
  some_ids id_of size (row ∷ rows) h e = cc

  batch_of_rows-Moves :
      {Row : Type 0} (job_of : Row → Result JobExecutionError (NewJob p.Value p.DateTime))
      (id_of : Row → ℤ) (size cursor : ℕ) (rows : List Row) (s : db.State)
      → All (λ row. IsBehind cursor (id_of row)) rows
      → Holds
          (Moves cursor)
          (batch_of_rows p db tx new_id j cat job_of id_of (suc size) cursor rows s)
  unfolding batch_of_rows
  batch_of_rows-Moves job_of id_of size cursor rows s h =
      let last =
        submitted_batch p db tx new_id j cat cursor (map id_of (take (suc size) rows))
          (leb (length rows) (suc size)) in
      after-Holds (Moves cursor) (lift (collect job_of (take (suc size) rows)) s)
        (λ jobs. submit_ingest_child_jobs p db tx new_id jobs >>= last)
        (λ jobs s₁ e₁.
          after-Holds (Moves cursor) (submit_ingest_child_jobs p db tx new_id jobs s₁) last
            (λ outcomes s₂ e₂.
              submitted_batch-Moves cursor (map id_of (take (suc size) rows))
                (leb (length rows) (suc size)) outcomes s₂ (some_ids id_of size rows)
                (All-take-map cursor (suc size) id_of rows h)))

  Holds-and :
      (f : AdminScanPhase) (cursor : ℕ) (r : Result JobExecutionError CatalogPhaseBatch × db.State)
      → IsBatch f
      → Holds (Moves cursor) r
      → Holds (λ batch. IsBatch f × Moves cursor batch) r
  Holds-and f cursor (err e, s) b h = tt
  Holds-and f cursor (ok a, s) b h = (b, h)

  enrichment_phase : (f : AdminScanPhase) → is_enrichment f ≡ true → f ≡ enrichment
  enrichment_phase enrichment h = refl
  enrichment_phase start h = cc
  enrichment_phase seasons h = cc
  enrichment_phase completion h = cc

  seasons_phase : (f : AdminScanPhase) → is_seasons f ≡ true → f ≡ seasons
  seasons_phase seasons h = refl
  seasons_phase start h = cc
  seasons_phase enrichment h = cc
  seasons_phase completion h = cc

  module _ (selects : SelectsBehind cat) where
    same_cursor : (n c : ℕ) → i64_of n ≡ ok c → n ≡ c
    same_cursor n c h = ground arith

    enrichment_batch-Moves :
        (mode : AdminScanMode) (t : MediaType) (cursor : ℕ) (s : db.State)
        → Holds
            (Moves cursor)
            (enqueue_catalog_enrichment_batch p db tx new_id j cat mode t cursor s)
    unfolding enqueue_catalog_enrichment_batch
    enrichment_batch-Moves mode t cursor s =
        let batch =
          batch_of_rows p db tx new_id j cat (enrichment_job p j t) (λ row. row.id) 100 cursor in
        let selected : Bool → ℕ → M db.State CatalogPhaseBatch =
          λ skip c. query (cat.enrichment_rows skip (media_type_name t) c 101) >>= batch in
        after-Holds (Moves cursor) (lift (i64_of cursor) s)
          (λ c. lift (skips_enriched mode) >>= λ skip. selected skip c)
          (λ c s₁ e₁.
            after-Holds (Moves cursor) (lift (skips_enriched mode) s₁) (λ skip. selected skip c)
              (λ skip s₂ e₂.
                after-Holds (Moves cursor)
                  (query (cat.enrichment_rows skip (media_type_name t) c 101) s₂) batch
                  (λ rows s₃ e₃.
                    batch_of_rows-Moves (enrichment_job p j t) (λ row. row.id) 99 cursor rows s₃
                      (subst (λ n. All (λ row. IsBehind n row.id) rows)
                        (sym (same_cursor cursor c e₁))
                        (selects.enrichment skip (media_type_name t) c 101 s₂ rows
                          (answered _ e₃))))))

    season_batch-Moves :
        (mode : AdminScanMode) (cursor : ℕ) (s : db.State)
        → Holds (Moves cursor) (enqueue_catalog_season_batch p db tx new_id j cat mode cursor s)
    unfolding enqueue_catalog_season_batch
    season_batch-Moves mode cursor s =
        let batch = batch_of_rows p db tx new_id j cat (season_job p j) (λ row. row.id) 25 cursor in
        let selected : Bool → ℕ → M db.State CatalogPhaseBatch =
          λ skip c. query (cat.season_rows skip c 26) >>= batch in
        after-Holds (Moves cursor) (lift (i64_of cursor) s)
          (λ c. lift (skips_enriched mode) >>= λ skip. selected skip c)
          (λ c s₁ e₁.
            after-Holds (Moves cursor) (lift (skips_enriched mode) s₁) (λ skip. selected skip c)
              (λ skip s₂ e₂.
                after-Holds (Moves cursor) (query (cat.season_rows skip c 26) s₂) batch
                  (λ rows s₃ e₃.
                    batch_of_rows-Moves (season_job p j) (λ row. row.id) 24 cursor rows s₃
                      (subst (λ n. All (λ row. IsBehind n row.id) rows)
                        (sym (same_cursor cursor c e₁))
                        (selects.seasons skip c 26 s₂ rows (answered _ e₃))))))

    pub phase_batch-Moves :
        (r : AdminScanPayload) (t : MediaType) (s : db.State)
        → Holds
            (λ batch. IsBatch r.phase × Moves r.cursor batch)
            (phase_batch p db tx new_id j cat r t s)
    unfolding phase_batch
    phase_batch-Moves r t s = elim (Bool-cases (is_enrichment r.phase)) [
      | inl e ↦ rw e (
          Holds-and r.phase r.cursor _ (inl (enrichment_phase r.phase e))
            (enrichment_batch-Moves r.mode t r.cursor s))
      | inr e ↦ rw e (elim (Bool-cases (is_seasons r.phase && is_tv t)) [
        | inl k ↦ rw k (
            Holds-and r.phase r.cursor _ (inr (seasons_phase r.phase (ground arith)))
              (season_batch-Moves r.mode r.cursor s))
        | inr k ↦ rw k tt
      ])
    ]
