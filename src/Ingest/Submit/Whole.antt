-- ===== src/Ingest/Submit/Whole.antt =====
-- apps/tmdb-ingest/src/jobs.rs: a submission of child jobs is all or nothing.
use tmdb_mirror.Prelude.{
  ℕ, ◌≡◌, ◌==◌, refl, ◌∙◌, ◌⊎◌, inl, inr, Bool, true, false, not, List, [], ◌∷◌, length, Result, ok,
  err, Text, if◌then◌else◌, Bool-cases,
}
use tmdb_mirror.Jobs.Error.{JobError, capacity}
use tmdb_mirror.Jobs.Model.{Platform, JobId, NewJob, SubmitOutcome}
use tmdb_mirror.Jobs.Repository.{
  Database, SubmitRequest, SubmitRow, SqlxError, prepare_submit_batch, batch_requests,
}
use tmdb_mirror.Jobs.Repository.Batch.{submit_many_in_transaction, submit_prepared, checked_rows}
use tmdb_mirror.Jobs.Worker.{JobExecutionError}
use tmdb_mirror.Ingest.Build.{map_submission_error}
use tmdb_mirror.Ingest.Submit.{
  Transactions, M, after, statement, query, closing, in_transaction, throw, pure, committed,
  rolled_back, on_submitted, submitting, queue_full, on_capacity, when_enabled, with_turn,
  submit_ingest_child_jobs, submit_refresh_jobs_with_capacity, count_new,
}

-- What other sessions see changes by a commit only.
pub record IsIsolated (p : Platform) (db : Database p.Value p.DateTime) (tx : Transactions db.State)
    {View : Type 0} (view : db.State → View) : Type 0 where
  pub begin : (s : db.State) → view (tx.begin s).1 ≡ view s
  pub rollback : (s : db.State) → view (tx.rollback s).1 ≡ view s
  pub dropped : (s : db.State) → view (tx.dropped s) ≡ view s
  pub enabled : (s : db.State) → view (tx.child_submissions_enabled s).1 ≡ view s
  pub admission : (s : db.State) → view (tx.try_admission s).1 ≡ view s
  pub submitted :
      (rows : List (ℕ × SubmitRequest p.DateTime)) (s : db.State)
      → view (db.submit_jobs rows s).1 ≡ view s

module _ (p : Platform) (db : Database p.Value p.DateTime) (tx : Transactions db.State)
    (new_id : ℕ → JobId) {View : Type 0} (view : db.State → View) where
  -- The view is that after the commit of a transaction in which all the jobs were submitted.
  pub record Commits (jobs : List (NewJob p.Value p.DateTime)) (w : View) : Type 0 where
    pub opened : db.State
    pub left : db.State
    pub outcomes : List SubmitOutcome
    pub submitted : submit_many_in_transaction p db new_id jobs opened ≡ (ok outcomes, left)
    pub visible : w ≡ view (tx.commit left).1

  -- Nothing is visible, or all is.
  abbrev pub IsWhole : List (NewJob p.Value p.DateTime) → View → View → Type 0
  IsWhole jobs v w = (w ≡ v) ⊎ Commits jobs w

  after-IsWhole :
      {A B : Type 0} (jobs : List (NewJob p.Value p.DateTime)) (v : View)
      (r : Result JobExecutionError A × db.State) (next : A → M db.State B)
      → view r.1 ≡ v
      → ((a : A) (s : db.State) → view s ≡ v → IsWhole jobs v (view (next a s).1))
      → IsWhole jobs v (view (after r next).1)
  after-IsWhole jobs v (err e, s) next same rest = inl same
  after-IsWhole jobs v (ok a, s) next same rest = rest a s same

  pure-IsWhole :
      {A B : Type 0} (jobs : List (NewJob p.Value p.DateTime)) (v : View)
      (r : Result JobExecutionError A × db.State) (f : A → B)
      → IsWhole jobs v (view r.1)
      → IsWhole jobs v (view (after r (λ a. pure (f a))).1)
  pure-IsWhole jobs v (err e, s) f whole = whole
  pure-IsWhole jobs v (ok a, s) f whole = whole

  module _ (isolated : IsIsolated p db tx view) where
    rows_view :
        (count : ℕ) (r : Result SqlxError (List SubmitRow) × db.State)
        → view (checked_rows p db count r).1 ≡ view r.1
    rows_view count (err e, s) = refl
    rows_view count (ok rows, s) = elim (Bool-cases (length rows == count)) [
      | inl e ↦ rw e
      | inr e ↦ rw e
    ]

    prepared_view :
        (jobs : List (NewJob p.Value p.DateTime)) (batch : Result JobError (List Text × List ℕ))
        (s : db.State)
        → view (submit_prepared p db new_id jobs batch s).1 ≡ view s
    prepared_view jobs (err e) s = refl
    prepared_view [] (ok batch) s = refl
    prepared_view (job ∷ jobs) (ok batch) s =
        rows_view (length (job ∷ jobs))
          (db.submit_jobs (batch_requests p new_id (job ∷ jobs) batch.0 batch.1) s)
        ∙ isolated.submitted _ s

    submit_many_in_transaction-view :
        (jobs : List (NewJob p.Value p.DateTime)) (s : db.State)
        → view (submit_many_in_transaction p db new_id jobs s).1 ≡ view s
    unfolding submit_many_in_transaction
    submit_many_in_transaction-view jobs s = prepared_view jobs (prepare_submit_batch p jobs) s

    closing-IsWhole :
        {A : Type 0} (jobs : List (NewJob p.Value p.DateTime)) (v : View)
        (r : Result JobExecutionError A × db.State)
        → IsWhole jobs v (view r.1)
        → IsWhole jobs v (view (closing tx.dropped r).1)
    closing-IsWhole jobs v (err e, s) whole = rw (isolated.dropped s) whole
    closing-IsWhole jobs v (ok a, s) whole = whole

    rolled_back-IsWhole :
        {A : Type 0} (jobs : List (NewJob p.Value p.DateTime)) (v : View)
        (r : Result JobExecutionError A) (s : db.State)
        → view s ≡ v
        → IsWhole jobs v (view (rolled_back p db tx new_id r s).1)
    rolled_back-IsWhole jobs v r s same =
        after-IsWhole jobs v _ _ (isolated.rollback s ∙ same) (λ u s' e. inl e)

    committed_view :
        (outcomes : List SubmitOutcome) (s : db.State)
        → view (committed p db tx new_id outcomes s).1 ≡ view (tx.commit s).1
    committed_view outcomes s = elim (Bool-cases (tx.commit s).0) [ inl e ↦ rw e | inr e ↦ rw e ]

    -- The body of a transaction that is whole wherever the view is `v`.
    abbrev Keeps :
        List (NewJob p.Value p.DateTime) → View → M db.State (List SubmitOutcome) → Type 0
    Keeps jobs v body = (s : db.State) → view s ≡ v → IsWhole jobs v (view (body s).1)

    choice-IsWhole :
        (jobs : List (NewJob p.Value p.DateTime)) (v : View)
        (r : Result JobExecutionError (List SubmitOutcome)) (rest : M db.State (List SubmitOutcome))
        (go : Bool)
        → Keeps jobs v rest
        → Keeps jobs v (if not go then rolled_back p db tx new_id r else rest)
    choice-IsWhole jobs v r rest true whole = whole
    choice-IsWhole jobs v r rest false whole = rolled_back-IsWhole jobs v r

    when_enabled-IsWhole :
        (jobs : List (NewJob p.Value p.DateTime)) (v : View)
        (rest : M db.State (List SubmitOutcome))
        → Keeps jobs v rest
        → Keeps jobs v (when_enabled p db tx new_id rest)
    unfolding when_enabled
    when_enabled-IsWhole jobs v rest whole s same =
        after-IsWhole jobs v (query tx.child_submissions_enabled s)
          (λ go. if not go then rolled_back p db tx new_id (ok []) else rest)
          (isolated.enabled s ∙ same) (λ go. choice-IsWhole jobs v (ok []) rest go whole)

    with_turn-IsWhole :
        (jobs : List (NewJob p.Value p.DateTime)) (v : View) (code : Text)
        (rest : M db.State (List SubmitOutcome))
        → Keeps jobs v rest
        → Keeps jobs v (with_turn p db tx new_id code rest)
    unfolding with_turn
    with_turn-IsWhole jobs v code rest whole s same =
        after-IsWhole jobs v (query tx.try_admission s)
          (λ go. if not go then rolled_back p db tx new_id (err (queue_full code)) else rest)
          (isolated.admission s ∙ same)
          (λ go. choice-IsWhole jobs v (err (queue_full code)) rest go whole)

    in_transaction-IsWhole :
        (jobs : List (NewJob p.Value p.DateTime)) (body : M db.State (List SubmitOutcome))
        (s : db.State)
        → Keeps jobs (view s) body
        → IsWhole jobs (view s) (view (in_transaction tx body s).1)
    in_transaction-IsWhole jobs body s whole =
        after-IsWhole jobs (view s) (statement tx.begin s) (λ u s'. closing tx.dropped (body s'))
          (isolated.begin s) (λ u s' e. closing-IsWhole jobs (view s) (body s') (whole s' e))

    on_submitted-IsWhole :
        (jobs : List (NewJob p.Value p.DateTime)) (v : View)
        (failed : JobError → M db.State (List SubmitOutcome)) (s : db.State)
        (r : Result JobError (List SubmitOutcome) × db.State)
        → submit_many_in_transaction p db new_id jobs s ≡ r
        → view r.1 ≡ v
        → ((e : JobError) (s' : db.State) → view s' ≡ v → IsWhole jobs v (view (failed e s').1))
        → IsWhole jobs v (view (on_submitted p db tx new_id failed r).1)
    on_submitted-IsWhole jobs v failed s (err e, s') eq same rest = rest e s' same
    on_submitted-IsWhole jobs v failed s (ok outcomes, s') eq same rest = inr (record {
      opened = s;
      left = s';
      outcomes = outcomes;
      submitted = eq;
      visible = committed_view outcomes s';
    })

    submitting-IsWhole :
        (jobs : List (NewJob p.Value p.DateTime)) (v : View)
        (failed : JobError → M db.State (List SubmitOutcome))
        → ((e : JobError) → Keeps jobs v (failed e))
        → Keeps jobs v (submitting p db tx new_id failed jobs)
    submitting-IsWhole jobs v failed whole s same =
        on_submitted-IsWhole jobs v failed s (submit_many_in_transaction p db new_id jobs s) refl
          (submit_many_in_transaction-view jobs s ∙ same) whole

    -- A submission of child jobs is all or nothing: whichever statement fails, and whether
    -- submissions are enabled, others see nothing of it, or all its jobs were submitted in one
    -- transaction and they see what its commit left.
    pub submit_ingest_child_jobs-IsWhole :
        (jobs : List (NewJob p.Value p.DateTime)) (s : db.State)
        → IsWhole jobs (view s) (view (submit_ingest_child_jobs p db tx new_id jobs s).1)
    unfolding submit_ingest_child_jobs
    submit_ingest_child_jobs-IsWhole [] s = inl refl
    submit_ingest_child_jobs-IsWhole (job ∷ jobs) s = in_transaction-IsWhole (job ∷ jobs) _ s (
        when_enabled-IsWhole (job ∷ jobs) (view s) _ (
          submitting-IsWhole (job ∷ jobs) (view s) (λ e. throw (map_submission_error e))
            (λ e s' same. inl same)))

    on_capacity-IsWhole :
        (jobs : List (NewJob p.Value p.DateTime)) (v : View) (code : Text) (x : JobError)
        → Keeps jobs v (on_capacity p db tx new_id code x)
    on_capacity-IsWhole jobs v code capacity = rolled_back-IsWhole jobs v _
    on_capacity-IsWhole jobs v code _ = λ s same. inl same

    -- A submission with the capacity of the queue is all or nothing: whichever statement fails, and
    -- whether submissions are enabled, others see nothing of it, or all its jobs were submitted in
    -- one transaction and they see what its commit left.
    pub submit_refresh_jobs-IsWhole :
        (jobs : List (NewJob p.Value p.DateTime)) (code : Text) (s : db.State)
        → IsWhole jobs
            (view s)
            (view (submit_refresh_jobs_with_capacity p db tx new_id jobs code s).1)
    unfolding submit_refresh_jobs_with_capacity
    submit_refresh_jobs-IsWhole [] code s = inl refl
    submit_refresh_jobs-IsWhole (job ∷ jobs) code s =
        pure-IsWhole (job ∷ jobs) (view s) _ count_new (
          in_transaction-IsWhole (job ∷ jobs) _ s (
            when_enabled-IsWhole (job ∷ jobs) (view s) _ (
              with_turn-IsWhole (job ∷ jobs) (view s) code _ (
                submitting-IsWhole (job ∷ jobs) (view s) (on_capacity p db tx new_id code)
                  (on_capacity-IsWhole (job ∷ jobs) (view s) code)))))
