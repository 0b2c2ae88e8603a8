-- ===== src/Ingest/Scan/Followed.antt =====
-- apps/tmdb-ingest/src/jobs.rs: an execution of a scan's phase queues only states that follow.
use mathlib.Core.Path.{subst}
use tmdb_mirror.Prelude.{
  ℕ, ◌+◌, ◌^◌, ◌<◌, ◌≡◌, refl, ap, ◌≢◌, inl, inr, Bool, true, false, not, ◌||◌, List, [], ◌∷◌,
  length, ok, ◌==◌, if◌then◌else◌, Bool-cases, arith,
}
use tmdb_mirror.Domain.{MediaType}
use tmdb_mirror.Jobs.Model.{Platform, JobId}
use tmdb_mirror.Jobs.Repository.{Database}
use tmdb_mirror.Ingest.Json.{Json}
use tmdb_mirror.Ingest.Payload.{
  NaiveDate, start, AdminScanPayload, has_batches, has_completion, is_completion,
}
use tmdb_mirror.Ingest.Payload.Scan.{IsScan}
use tmdb_mirror.Ingest.Build.{invalid}
use tmdb_mirror.Ingest.Submit.{Transactions, M, after, pure, query, lift, throw, ◌>>=◌, ◌>>◌}
use tmdb_mirror.Ingest.Scan.{
  Catalog, ScanReport, waiting, queued, phase_batch, following, next_poll, wait, is_seasons,
  completion_phase, finish_scan, batch_phase, run_batch, execute_catalog_scan_phase,
}
use tmdb_mirror.Ingest.Scan.Next.{IsNext, polled-IsNext, following-IsNext}
use tmdb_mirror.Ingest.Scan.Runs.{SelectsBehind, after-agree, Holds-ok, phase_batch-Moves}

next_poll-eq-ok : (n m : ℕ) → next_poll n ≡ ok m → (n + 1 ≡ m) × (n + 1 < 2 ^ 32)
unfolding next_poll
next_poll-eq-ok n m h = ground arith

choice-agree :
    {State A : Type 0} (b : Bool) (x x' y y' : M State A) (s : State)
    → x s ≡ x' s
    → y s ≡ y' s
    → (if b then x else y) s ≡ (if b then x' else y') s
choice-agree true x x' y y' s h k = h
choice-agree false x x' y y' s h k = k

module _ (p : Platform) (db : Database p.Value p.DateTime) (tx : Transactions db.State)
    (new_id : ℕ → JobId) (j : Json p.Value) (cat : Catalog db.State) (today : NaiveDate)
    (submit other : AdminScanPayload → M db.State (Unit {0})) (r : AdminScanPayload) where
  -- The two submissions do the same with the states that follow `r`.
  abbrev pub AgreeOnNext : Type 0
  AgreeOnNext =
      (next : AdminScanPayload) (s : db.State) → IsNext r next → submit next s ≡ other next s

  module _ (accepted : IsScan r) (agree : AgreeOnNext) where
    submit-agree :
        (next : AdminScanPayload) (report : ScanReport) (s : db.State)
        → IsNext r next
        → (submit next >> pure report) s ≡ (other next >> pure report) s
    submit-agree next report s h = ap (λ run. after run (λ u. pure report)) (agree next s h)

    wait-agree :
        (s : db.State)
        → r.phase ≢ start
        → wait p db tx new_id j cat submit today r s ≡ wait p db tx new_id j cat other today r s
    unfolding wait
    wait-agree s h =
        after-agree (lift (next_poll r.poll) s)
          (λ poll. submit (record r { poll = poll }) >> pure (waiting r))
          (λ poll. other (record r { poll = poll }) >> pure (waiting r))
          (λ poll s' e.
            let (same, bound) = next_poll-eq-ok r.poll poll (ap (λ x. x.0) e) in
            submit-agree (record r { poll = poll }) (waiting r) s'
              (subst (λ n. IsNext r (record r { poll = n })) same
                (polled-IsNext r accepted h bound)))

    completion-agree :
        (s : db.State)
        → r.phase ≢ start
        → completion_phase p db tx new_id j cat submit today r s
          ≡ completion_phase p db tx new_id j cat other today r s
    unfolding completion_phase
    completion-agree s h =
        let one : Bool → M db.State ScanReport = λ active.
          if active
          then wait p db tx new_id j cat submit today r
          else finish_scan p db tx new_id j cat today r in
        let two : Bool → M db.State ScanReport = λ active.
          if active
          then wait p db tx new_id j cat other today r
          else finish_scan p db tx new_id j cat today r in
        choice-agree (not (has_completion r.mode)) (throw invalid) (throw invalid)
          (query cat.completion_has_active_work >>= one)
          (query cat.completion_has_active_work >>= two) s refl
          (after-agree (query cat.completion_has_active_work s) one two (λ active s' e.
            choice-agree active (wait p db tx new_id j cat submit today r)
              (wait p db tx new_id j cat other today r) (finish_scan p db tx new_id j cat today r)
              (finish_scan p db tx new_id j cat today r) s' (wait-agree s' h) refl))

    run_batch-agree :
        (types : List MediaType) (s : db.State)
        → SelectsBehind cat
        → run_batch p db tx new_id j cat submit today r types s
          ≡ run_batch p db tx new_id j cat other today r types s
    run_batch-agree [] s selects = refl
    run_batch-agree (t ∷ types) s selects =
        after-agree (phase_batch p db tx new_id j cat r t s)
          (λ batch. submit (following r t batch) >> pure (queued r batch))
          (λ batch. other (following r t batch) >> pure (queued r batch))
          (λ batch s' e.
            let facts =
              Holds-ok _ (phase_batch p db tx new_id j cat r t s) batch s'
                (phase_batch-Moves p db tx new_id j cat selects r t s) e in
            submit-agree (following r t batch) (queued r batch) s'
              (following-IsNext r t batch accepted facts.0 facts.1))

    batch_phase-agree :
        (s : db.State)
        → SelectsBehind cat
        → r.phase ≢ start
        → batch_phase p db tx new_id j cat submit today r s
          ≡ batch_phase p db tx new_id j cat other today r s
    unfolding batch_phase
    batch_phase-agree s selects h =
        let active_work = query (cat.phase_has_active_work (is_seasons r.phase)) in
        let one : Bool → M db.State ScanReport = λ active.
          if active
          then wait p db tx new_id j cat submit today r
          else run_batch p db tx new_id j cat submit today r r.media_types in
        let two : Bool → M db.State ScanReport = λ active.
          if active
          then wait p db tx new_id j cat other today r
          else run_batch p db tx new_id j cat other today r r.media_types in
        choice-agree (not (has_batches r.mode) || not (length r.media_types == 1)) (throw invalid)
          (throw invalid) (active_work >>= one) (active_work >>= two) s refl
          (after-agree (active_work s) one two (λ active s' e.
            choice-agree active (wait p db tx new_id j cat submit today r)
              (wait p db tx new_id j cat other today r)
              (run_batch p db tx new_id j cat submit today r r.media_types)
              (run_batch p db tx new_id j cat other today r r.media_types) s' (wait-agree s' h)
              (run_batch-agree r.media_types s' selects)))

  -- An execution of a phase of an accepted scan that has left its start queues at most states that
  -- follow it: ones that are accepted too, of the same mode and media types, with a poll count of 32
  -- bits, and that poll once more, have a later phase, or have the cursor further on in the same
  -- phase. Whatever a submission does with other states, the execution is the same. The queries are
  -- assumed to select rows behind the cursor.
  pub execute_catalog_scan_phase-IsNext :
      IsScan r
      → r.phase ≢ start
      → SelectsBehind cat
      → AgreeOnNext
      → (s : db.State)
      → execute_catalog_scan_phase p db tx new_id j cat submit today r s
        ≡ execute_catalog_scan_phase p db tx new_id j cat other today r s
  unfolding execute_catalog_scan_phase
  execute_catalog_scan_phase-IsNext accepted h selects agree s =
      elim (Bool-cases (is_completion r.phase)) [
        | inl e ↦ rw e (completion-agree accepted agree s h)
        | inr e ↦ rw e (batch_phase-agree accepted agree s selects h)
      ]
