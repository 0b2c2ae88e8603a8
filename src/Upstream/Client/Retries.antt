-- ===== src/Upstream/Client/Retries.antt =====
-- How often and for what the request loop tries again.
use tmdb_mirror.Prelude.{
  ℕ, zero, suc, ◌+◌, ◌≤◌, ◌<◌, ◌≡◌, refl, ◌⊎◌, inl, inr, Bool, true, List, [], ◌∷◌, ◌++◌, Option,
  none, some, ltb, length, length-append, Text, Result, ok, err, ap, ◌∙◌, arith, Bool-cases,
}
use native.Mathlib.Nat.{add-zero, add-suc, suc-add}
use tmdb_mirror.Upstream.Policy.{RetryPolicy, backoff}
use tmdb_mirror.Upstream.Client.{
  ResponseClass, TmdbClientError, Response, Attempt, Step, done, again, read_from, read_bounded,
  classify_response, after_response, after_body, after_send, attempt_step, request_loop,
  request_bytes,
}

backoff-le : (p : RetryPolicy) (attempt : ℕ) → backoff p attempt ≤ p.backoff_max
unfolding backoff
backoff-le p attempt = ground arith

length-read :
    (body : List ℕ) (chunks : List (Option (List ℕ))) (most : ℕ) {out : List ℕ}
    → length body ≤ most
    → read_from body chunks most ≡ ok out
    → length out ≤ most
unfolding read_from
length-read body [] most h e = ground arith
length-read body (none ∷ chunks) most h e = cc
length-read body (some chunk ∷ chunks) most {out} h e = ground (
  arith,
  length-append body chunk,
  λ (k : length (body ++ chunk) ≤ most) (q : read_from (body ++ chunk) chunks most ≡ ok out).
      length-read (body ++ chunk) chunks most k q,
)

-- A failed send, a 429 or a 5xx answer.
abbrev pub IsTransient : Attempt → Type 0
IsTransient a =
    (a.response ≡ none)
    ⊎ ((r : Response) × (a.response ≡ some r)
        × ((r.status ≡ 429) ⊎ ((500 ≤ r.status) × (r.status ≤ 599))))

module _ (date_delay : Text → Option ℕ) (p : RetryPolicy) (host : Option Text) where
  after_response-again :
      (attempt : ℕ) (more : Bool) (status : ℕ) (header : Option Text) (body : List ℕ) {d : ℕ}
      → after_response date_delay p host attempt more status
          (classify_response date_delay status header)
          body
        ≡ again d
      → (more ≡ true) × (d ≤ p.backoff_max) × ((status ≡ 429) ⊎ ((500 ≤ status) × (status ≤ 599)))
  unfolding after_response classify_response
  after_response-again attempt more status header body e = ground (arith, backoff-le p attempt)

  after_response-done :
      (attempt : ℕ) (more : Bool) (status : ℕ) (c : ResponseClass) (body : List ℕ) {out : List ℕ}
      → after_response date_delay p host attempt more status c body ≡ done (ok out)
      → body ≡ out
  unfolding after_response
  after_response-done attempt more status c body e = ground arith

  body-again :
      (attempt : ℕ) (more : Bool) (r : Response) (read : Result TmdbClientError (List ℕ)) {d : ℕ}
      → after_body date_delay p host attempt more r read ≡ again d
      → (more ≡ true)
        × (d ≤ p.backoff_max)
        × ((r.status ≡ 429) ⊎ ((500 ≤ r.status) × (r.status ≤ 599)))
  body-again attempt more r (err x) e = cc
  body-again attempt more r (ok body) e =
      after_response-again attempt more r.status r.retry_after body e

  body-done :
      (attempt : ℕ) (more : Bool) (r : Response) (read : Result TmdbClientError (List ℕ))
      {out : List ℕ}
      → after_body date_delay p host attempt more r read ≡ done (ok out)
      → read ≡ ok out
  body-done attempt more r (err x) e = cc
  body-done attempt more r (ok body) e =
      ap (λ b. ok b) (after_response-done attempt more r.status _ body e)

  send-again :
      (attempt : ℕ) (more : Bool) (o : Option Response) {d : ℕ}
      → after_send date_delay p host attempt more o ≡ again d
      → (more ≡ true)
        × (d ≤ p.backoff_max)
        × ((o ≡ none)
            ⊎ ((r : Response) × (o ≡ some r)
                × ((r.status ≡ 429) ⊎ ((500 ≤ r.status) × (r.status ≤ 599)))))
  unfolding after_send
  send-again attempt more none e =
      let here = backoff-le p attempt in (ground arith, ground (arith, here), inl refl)
  send-again attempt more (some r) e =
      let (left, small, why) = body-again attempt more r _ e in (left, small, inr (r, refl, why))

  send-done :
      (attempt : ℕ) (more : Bool) (o : Option Response) {out : List ℕ}
      → after_send date_delay p host attempt more o ≡ done (ok out)
      → length out ≤ p.max_response_bytes
  unfolding after_send read_bounded
  send-done attempt more none e = ground arith
  send-done attempt more (some r) e =
      length-read [] r.chunks p.max_response_bytes (omega arith) (body-done attempt more r _ e)

  step-again :
      (attempt : ℕ) (a : Attempt) {d : ℕ}
      → attempt_step date_delay p host attempt a ≡ again d
      → (attempt < p.max_attempts) × (d ≤ p.backoff_max) × IsTransient a
  unfolding attempt_step
  step-again attempt a e = elim (Bool-cases a.gate_open) [
    | inl open_gate ↦
        let (more, small, why) =
          send-again attempt (ltb attempt p.max_attempts) a.response
            (rw (open_gate, attempt_step) at e) in
        (ground arith, small, why)
    | inr shut ↦ ground arith
  ]

  step-done :
      (attempt : ℕ) (a : Attempt) {body : List ℕ}
      → attempt_step date_delay p host attempt a ≡ done (ok body)
      → length body ≤ p.max_response_bytes
  unfolding attempt_step
  step-done attempt a e = elim (Bool-cases a.gate_open) [
    | inl open_gate ↦
        send-done attempt (ltb attempt p.max_attempts) a.response
          (rw (open_gate, attempt_step) at e)
    | inr shut ↦ ground arith
  ]

  -- Every sleep of a list follows a transient answer and is bounded; the attempts are numbered.
  abbrev pub Waited : ℕ → (ℕ → Attempt) → List ℕ → Type 0
  Waited attempt network [] = Unit
  Waited attempt network (d ∷ ds) =
      ((d ≤ p.backoff_max) × IsTransient (network attempt)) × Waited (suc attempt) network ds

  -- How a call ends whose first attempt has the number `attempt`.
  pub record Ended (attempt : ℕ) (network : ℕ → Attempt) (r : Result TmdbClientError (List ℕ))
      (sleeps : List ℕ) : Type 0 where
    pub bounded : attempt + length sleeps ≤ p.max_attempts
    pub waited : Waited attempt network sleeps
    pub last :
        attempt_step date_delay p host (attempt + length sleeps) (network (attempt + length sleeps))
        ≡ done r

  loop-Ended :
      (rounds attempt : ℕ) (network : ℕ → Attempt)
      → 0 < rounds
      → attempt + rounds ≡ suc p.max_attempts
      → Ended attempt network
          (request_loop date_delay rounds p host attempt network).0
          (request_loop date_delay rounds p host attempt network).1
  unfolding request_loop
  loop-Ended zero attempt network h e = absurd (omega arith)
  loop-Ended (suc rounds) attempt network h e =
      go (attempt_step date_delay p host attempt (network attempt)) refl
        (λ more. loop-Ended rounds (suc attempt) network more (omega arith))
    where
      go :
          (s : Step)
          → attempt_step date_delay p host attempt (network attempt) ≡ s
          → (0 < rounds
              → Ended
                  (suc attempt)
                  network
                  (request_loop date_delay rounds p host (suc attempt) network).0
                  (request_loop date_delay rounds p host (suc attempt) network).1)
          → Ended attempt network
              (request_loop date_delay (suc rounds) p host attempt network).0
              (request_loop date_delay (suc rounds) p host attempt network).1
      go (done r) q ih =
          rw (q, request_loop) (record { bounded = omega arith; waited = tt; last = rw add-zero q })
      go (again d) q ih =
          let (left, small, why) = step-again attempt (network attempt) q in
          let later = ih (omega arith) in
          rw (q, request_loop)
            (record {
              bounded = omega (arith, later.bounded);
              waited = ((small, why), later.waited);
              last = rw (add-suc, ← suc-add) later.last;
            })

-- A request makes at most `max_attempts` attempts. Each but the last met a failed send, a 429 or a
-- 5xx answer and was followed by a sleep of at most `backoff_max`, also where the server asked for
-- more; the last attempt gives the result, and a body that is returned is within its bound.
pub request_bytes_lem :
    (date_delay : Text → Option ℕ) (p : RetryPolicy) (host : Option Text) (network : ℕ → Attempt)
    → 0 < p.max_attempts
    → let (r, sleeps) = request_bytes date_delay p host network in
      Ended date_delay p host 1 network r sleeps
      × ((body : List ℕ) → r ≡ ok body → length body ≤ p.max_response_bytes)
unfolding request_bytes
request_bytes_lem date_delay p host network h =
    let ended = loop-Ended date_delay p host p.max_attempts 1 network h (omega arith) in
    (ended, λ body e. step-done date_delay p host _ _ (ended.last ∙ ap (λ r. done r) e))
