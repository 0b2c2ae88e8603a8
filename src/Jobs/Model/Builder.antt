-- ===== src/Jobs/Model/Builder.antt =====
-- The builder of `NewJob` in crates/tmdb-jobs/src/model.rs: which jobs it can make.
use mathlib.Core.Path.{subst}
use tmdb_mirror.Prelude.{
  ℕ, ◌≤◌, ◌≡◌, refl, ◌↔◌, true, false, List, Option, none, some, length, Text, ok, arith, ℤ, pos,
  negsuc, leℤ, ok_of_bind, reject_if,
}
use tmdb_mirror.Jobs.Error.{ValidationError}
use tmdb_mirror.Jobs.Model.{
  Platform, NewJob, new_job, with_priority, with_max_attempts, with_available_at, validate_text,
  validate_json_object, is_oversized, max_job_type_chars, max_dedup_key_chars, max_json_bytes,
}
use tmdb_mirror.Jobs.Model.Plain.{IsPlain, validate_text_iff}

abbrev Within : ℤ → ℤ → ℤ → Type 0
Within lo hi n = (leℤ lo n ≡ true) × (leℤ n hi ≡ true)

-- A serialisation of at most `max_json_bytes` bytes.
abbrev IsSmall : Option (List ℕ) → Type 0
IsSmall none = ⊥
IsSmall (some bytes) = length bytes ≤ max_json_bytes

module _ (p : Platform) where
  open p use {Value, is_object, to_vec, DateTime, year}

  abbrev HasYear : Option DateTime → Type 0
  HasYear none = Unit
  HasYear (some t) = Within (pos 1) (pos 9999) (year t)

  -- The bounds that the database boundary relies on.
  pub record IsValid (job : NewJob Value DateTime) : Type 0 where
    pub job_type : IsPlain max_job_type_chars job.job_type
    pub version : leℤ job.payload_version (pos 0) ≡ false
    pub object : is_object job.payload ≡ true
    pub small : IsSmall (to_vec job.payload)
    pub dedup_key : IsPlain max_dedup_key_chars job.dedup_key
    pub priority : Within (negsuc 999) (pos 1000) job.priority
    pub attempts : Within (pos 1) (pos 100) job.max_attempts
    pub available : HasYear job.available_at

  -- The jobs that calls of the builder make.
  pub data Built : NewJob Value DateTime → Type 0 where
    created :
        {job : NewJob Value DateTime} (t : Text) (v : ℤ) (x : Value) (k : Text)
        → new_job p t v x k ≡ ok job
        → Built job
    prioritised :
        {job job' : NewJob Value DateTime} (n : ℤ)
        → Built job
        → with_priority p job n ≡ ok job'
        → Built job'
    limited :
        {job job' : NewJob Value DateTime} (n : ℤ)
        → Built job
        → with_max_attempts p job n ≡ ok job'
        → Built job'
    scheduled :
        {job job' : NewJob Value DateTime} (t : DateTime)
        → Built job
        → with_available_at p job t ≡ ok job'
        → Built job'

  IsSmall-iff : (o : Option (List ℕ)) → (is_oversized o ≡ false) ↔ IsSmall o
  IsSmall-iff none = ground arith
  IsSmall-iff (some bytes) = ground arith

  object_iff :
      (x : Value) → (validate_json_object p x ≡ ok tt) ↔ ((is_object x ≡ true) × IsSmall (to_vec x))
  unfolding validate_json_object
  object_iff x = ground (arith, IsSmall-iff (to_vec x))

  abbrev pub created_job : Text → ℤ → Value → Text → NewJob Value DateTime
  created_job t v x k = record {
    job_type = t;
    payload_version = v;
    payload = x;
    priority = pos 0;
    max_attempts = pos 3;
    available_at = none;
    dedup_key = k;
  }

  -- `new_job` returns the given fields with the defaults, and only if all four checks pass.
  pub new_job-eq-ok :
      (t : Text) (v : ℤ) (x : Value) (k : Text) {job : NewJob Value DateTime}
      → new_job p t v x k ≡ ok job
      → IsPlain max_job_type_chars t
        × (leℤ v (pos 0) ≡ false)
        × ((is_object x ≡ true) × IsSmall (to_vec x))
        × IsPlain max_dedup_key_chars k
        × (created_job t v x k ≡ job)
  unfolding new_job
  new_job-eq-ok t v x k e =
      let (_, a, e₁) =
        ok_of_bind (validate_text t max_job_type_chars ValidationError.job_type) _ e in
      let (_, b, e₂) =
        ok_of_bind (reject_if (leℤ v (pos 0)) ValidationError.payload_version) _ e₁ in
      let (_, c, e₃) = ok_of_bind (validate_json_object p x) _ e₂ in
      let (_, d, e₄) =
        ok_of_bind (validate_text k max_dedup_key_chars ValidationError.dedup_key) _ e₃ in
      (
        (validate_text_iff t max_job_type_chars ValidationError.job_type).0.0 a,
        ground arith,
        (object_iff x).0 c,
        (validate_text_iff k max_dedup_key_chars ValidationError.dedup_key).0.0 d,
        ground arith,
      )

  priority-eq-ok :
      (job : NewJob Value DateTime) (n : ℤ) {job' : NewJob Value DateTime}
      → with_priority p job n ≡ ok job'
      → Within (negsuc 999) (pos 1000) n × (record job { priority = n } ≡ job')
  unfolding with_priority
  priority-eq-ok job n e = ground arith

  attempts-eq-ok :
      (job : NewJob Value DateTime) (n : ℤ) {job' : NewJob Value DateTime}
      → with_max_attempts p job n ≡ ok job'
      → Within (pos 1) (pos 100) n × (record job { max_attempts = n } ≡ job')
  unfolding with_max_attempts
  attempts-eq-ok job n e = ground arith

  available-eq-ok :
      (job : NewJob Value DateTime) (t : DateTime) {job' : NewJob Value DateTime}
      → with_available_at p job t ≡ ok job'
      → Within (pos 1) (pos 9999) (year t) × (record job { available_at = some t } ≡ job')
  unfolding with_available_at
  available-eq-ok job t e = ground arith

  Built-IsValid : {job : NewJob Value DateTime} → Built job → IsValid job
  Built-IsValid (created t v x k e) =
      let (a, b, c, d, same) = new_job-eq-ok t v x k e in
      subst IsValid same (record {
        job_type = a;
        version = b;
        object = c.0;
        small = c.1;
        dedup_key = d;
        priority = (refl, refl);
        attempts = (refl, refl);
        available = tt;
      })
  Built-IsValid (prioritised {job} n b e) =
      let v = Built-IsValid b in
      let (w, same) = priority-eq-ok job n e in
      subst IsValid same (record {
        job_type = v.job_type;
        version = v.version;
        object = v.object;
        small = v.small;
        dedup_key = v.dedup_key;
        priority = w;
        attempts = v.attempts;
        available = v.available;
      })
  Built-IsValid (limited {job} n b e) =
      let v = Built-IsValid b in
      let (w, same) = attempts-eq-ok job n e in
      subst IsValid same (record {
        job_type = v.job_type;
        version = v.version;
        object = v.object;
        small = v.small;
        dedup_key = v.dedup_key;
        priority = v.priority;
        attempts = w;
        available = v.available;
      })
  Built-IsValid (scheduled {job} t b e) =
      let v = Built-IsValid b in
      let (w, same) = available-eq-ok job t e in
      subst IsValid same (record {
        job_type = v.job_type;
        version = v.version;
        object = v.object;
        small = v.small;
        dedup_key = v.dedup_key;
        priority = v.priority;
        attempts = v.attempts;
        available = w;
      })

  new_job_of_IsValid :
      (job : NewJob Value DateTime)
      → IsValid job
      → new_job p job.job_type job.payload_version job.payload job.dedup_key
        ≡ ok (created_job job.job_type job.payload_version job.payload job.dedup_key)
  unfolding new_job
  new_job_of_IsValid job v =
      rw
        ((validate_text_iff job.job_type max_job_type_chars ValidationError.job_type).0.1
          v.job_type)
        (rw v.version (
          rw ((object_iff job.payload).1 (v.object, v.small)) (
            rw (
              (validate_text_iff job.dedup_key max_dedup_key_chars ValidationError.dedup_key).0.1
                v.dedup_key))))

  with_schedule :
      (job : NewJob Value DateTime) (o : Option DateTime)
      → Built (record job { available_at = none })
      → HasYear o
      → Built (record job { available_at = o })
  unfolding with_available_at
  with_schedule job none b h = b
  with_schedule job (some t) b h = Built.scheduled t b (ground arith)

  IsValid-Built : (job : NewJob Value DateTime) → IsValid job → Built job
  unfolding with_priority with_max_attempts
  IsValid-Built job v =
      let start =
        Built.created job.job_type job.payload_version job.payload job.dedup_key
          (new_job_of_IsValid job v) in
      let ranked =
        Built.prioritised
          {job' = record (created_job job.job_type job.payload_version job.payload job.dedup_key) {
            priority = job.priority;
          }}
          job.priority start (ground (arith, v.priority)) in
      let bounded : Built (record job { available_at = none }) =
        Built.limited job.max_attempts ranked (ground (arith, v.attempts)) in
      with_schedule job job.available_at bounded v.available

  -- The builder makes exactly the jobs that satisfy all the bounds: whatever calls succeed, the
  -- job has them, and every job with them is the result of some calls.
  pub Built-iff : (job : NewJob Value DateTime) → Built job ↔ IsValid job
  Built-iff job = (Built-IsValid, IsValid-Built job)
