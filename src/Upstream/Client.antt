-- ===== src/Upstream/Client.antt =====
-- crates/tmdb-upstream/src/client.rs: classification of responses and the request loop.
-- The network is given as a value: what the gate and the transport answer at each attempt. A header
-- is its text, if it is present and visible ASCII; dates in it are read by a parameter.
pub mod Retries
use tmdb_mirror.Prelude.{
  ℕ, zero, suc, ◌+◌, ◌-◌, ◌*◌, ◌/◌, ◌^◌, ◌≡◌, Bool, true, false, not, ◌&&◌, ◌||◌, List, [], ◌∷◌,
  ◌++◌, Option, none, some, ltb, leb, ◌==◌, if◌then◌else◌, length, take, any, min, Text, codes,
  text_eq, is_control, Result, ok, err,
}
use tmdb_mirror.Upstream.Policy.{PolicyError, limiter_closed, RetryPolicy, backoff}

pub data ResponseClass : Type 0 where
  success not_modified unauthorized forbidden not_found : ResponseClass
  rate_limited : Option ℕ → ResponseClass
  transient_server permanent_client : ℕ → ResponseClass

pub data TrawlDecision : Type 0 where
  not_eligible challenge_detected : TrawlDecision

pub data TmdbClientError : Type 0 where
  invalid_base_url invalid_path http_client_build transport response_too_large : TmdbClientError
  export_size_limit invalid_export_destination export_storage : TmdbClientError
  unauthorized_error not_found_error not_modified_error : TmdbClientError
  policy : PolicyError → TmdbClientError
  rate_limit : Option ℕ → TmdbClientError
  forbidden_error : TrawlDecision → TmdbClientError
  upstream_server permanent_http : ℕ → TmdbClientError
  malformed_json : Text → TmdbClientError

-- `str::parse::<u64>`: digits behind an optional plus sign, without overflow.
unfoldable pub digits_value : Text → ℕ → Option ℕ
digits_value [] acc = some acc
digits_value (c ∷ s) acc =
    let next = acc * 10 + (c - b'0') in
    let rest = digits_value s next in
    if leb b'0' c && leb c b'9' && ltb next (2 ^ 64) then rest else none

unfoldable pub parse_u64 : Text → Option ℕ
unfolding digits_value
parse_u64 [] = none
parse_u64 (c ∷ []) = digits_value (c ∷ []) 0
parse_u64 (c ∷ d ∷ s) = if c == b'+' then digits_value (d ∷ s) 0 else digits_value (c ∷ d ∷ s) 0

-- `body.contains(signature)` over bytes: a signature is ASCII, and the lossy decoding keeps every
-- ASCII byte with its neighbours.
begins : List ℕ → List ℕ → Bool
begins body [] = true
begins [] (b ∷ s) = false
begins (a ∷ body) (b ∷ s) = (a == b) && begins body s

unfoldable pub contains : List ℕ → List ℕ → Bool
unfolding begins
contains [] s = begins [] s
contains (a ∷ body) s = begins (a ∷ body) s || contains body s

unfoldable pub to_ascii_lowercase : List ℕ → List ℕ
to_ascii_lowercase [] = []
to_ascii_lowercase (c ∷ s) = (if leb b'A' c && leb c b'Z' then c + 32 else c) ∷ to_ascii_lowercase s

abbrev pub challenge_signatures : List Text
challenge_signatures =
    codes "cf-chl-"
    ∷ codes "challenge-platform"
    ∷ codes "just a moment..."
    ∷ codes "captcha"
    ∷ codes "checking your browser"
    ∷ []

unfoldable pub allowlisted_host : Option Text → Bool
unfolding text_eq
allowlisted_host none = false
allowlisted_host (some host) =
    text_eq host (codes "api.themoviedb.org")
    || text_eq host (codes "files.tmdb.org")
    || text_eq host (codes "image.tmdb.org")
    || text_eq host (codes "www.themoviedb.org")

unfoldable pub trawl_decision : Option Text → ℕ → List ℕ → TrawlDecision
unfolding contains to_ascii_lowercase
trawl_decision host status body =
    if not (allowlisted_host host) || (status == 429) || (status == 401) || (status == 404)
    then not_eligible
    else if any (contains (to_ascii_lowercase (take (16 * 1024) body))) challenge_signatures
    then challenge_detected
    else not_eligible

-- The path test of `fetch_json`.
unfoldable pub is_invalid_path : Text → Bool
unfolding contains is_control
is_invalid_path [] = true
is_invalid_path (c ∷ path) =
    (c == b'/')
    || contains (c ∷ path) (codes "://")
    || contains (c ∷ path) (codes "..")
    || contains (c ∷ path) (codes "//")
    || any (λ d. (d == b'?') || (d == b'#')) (c ∷ path)
    || any is_control (c ∷ path)

-- `endpoint.chars().take(128)` without line ends.
without_line_ends : Text → Text
without_line_ends [] = []
without_line_ends (c ∷ s) =
    if (c == 10) || (c == 13) then without_line_ends s else c ∷ without_line_ends s

unfoldable pub bounded_endpoint : Text → Text
unfolding without_line_ends
bounded_endpoint endpoint = without_line_ends (take 128 endpoint)

-- `read_bounded`: each chunk is its bytes, or a transport failure.
unfoldable pub read_from : List ℕ → List (Option (List ℕ)) → ℕ → Result TmdbClientError (List ℕ)
read_from body [] max_bytes = ok body
read_from body (none ∷ chunks) max_bytes = err transport
read_from body (some chunk ∷ chunks) max_bytes =
    let rest = read_from (body ++ chunk) chunks max_bytes in
    if ltb max_bytes (length body + length chunk) then err response_too_large else rest

unfoldable pub read_bounded : List (Option (List ℕ)) → ℕ → Result TmdbClientError (List ℕ)
unfolding read_from
read_bounded chunks max_bytes = read_from [] chunks max_bytes

pub record Response : Type 0 where
  pub status : ℕ
  pub retry_after : Option Text
  pub chunks : List (Option (List ℕ))

-- What one attempt meets: whether the gate is open, and the response unless sending failed.
pub record Attempt : Type 0 where
  pub gate_open : Bool
  pub response : Option Response

-- How an attempt ends: with the result of the call, or with a sleep before the next one.
pub data Step : Type 0 where
  done : Result TmdbClientError (List ℕ) → Step
  again : ℕ → Step

-- The delay until an HTTP date, or zero if it has passed; `none` if the text is no date.
module _ (date_delay : Text → Option ℕ) where
  unfoldable pub parse_retry_after : Option Text → Option ℕ
  parse_retry_after none = none
  parse_retry_after (some value) = elim (parse_u64 value) [
    | some seconds ↦ some (seconds * 1000000000)
    | none ↦ date_delay value
  ]

  unfoldable pub classify_response : ℕ → Option Text → ResponseClass
  classify_response status retry_after =
      if leb 200 status && leb status 226
      then success
      else if status == 304
      then not_modified
      else if status == 429
      then rate_limited (parse_retry_after retry_after)
      else if status == 401
      then unauthorized
      else if status == 403
      then forbidden
      else if status == 404
      then not_found
      else if leb 500 status && leb status 599
      then transient_server status
      else permanent_client status

  abbrev whole_seconds : Option ℕ → Option ℕ
  whole_seconds none = none
  whole_seconds (some d) = some (d / 1000000000)

  abbrev requested_or : ℕ → Option ℕ → ℕ
  requested_or delay none = delay
  requested_or delay (some d) = d

  -- The match on the class; `more` says whether attempts are left.
  unfoldable pub after_response :
      RetryPolicy → Option Text → ℕ → Bool → ℕ → ResponseClass → List ℕ → Step
  after_response p host attempt more status success body = done (ok body)
  after_response p host attempt more status not_modified body = done (err not_modified_error)
  after_response p host attempt more status (rate_limited retry_after) body =
      if more
      then again (min (requested_or (backoff p attempt) retry_after) p.backoff_max)
      else done (err (rate_limit (whole_seconds retry_after)))
  after_response p host attempt more status (transient_server s) body =
      if more then again (backoff p attempt) else done (err (upstream_server s))
  after_response p host attempt more status unauthorized body = done (err unauthorized_error)
  after_response p host attempt more status forbidden body =
      done (err (forbidden_error (trawl_decision host status body)))
  after_response p host attempt more status not_found body = done (err not_found_error)
  after_response p host attempt more status (permanent_client s) body =
      done (err (permanent_http s))

  abbrev after_body :
      RetryPolicy → Option Text → ℕ → Bool → Response → Result TmdbClientError (List ℕ) → Step
  after_body p host attempt more r (err e) = done (err e)
  after_body p host attempt more r (ok body) =
      after_response p host attempt more r.status (classify_response r.status r.retry_after) body

  unfoldable pub after_send : RetryPolicy → Option Text → ℕ → Bool → Option Response → Step
  after_send p host attempt more none =
      if more then again (backoff p attempt) else done (err transport)
  after_send p host attempt more (some r) =
      after_body p host attempt more r (read_bounded r.chunks p.max_response_bytes)

  -- The body of the loop, for the attempt numbered from 1.
  unfoldable pub attempt_step : RetryPolicy → Option Text → ℕ → Attempt → Step
  unfolding after_send
  attempt_step p host attempt a =
      if a.gate_open
      then after_send p host attempt (ltb attempt p.max_attempts) a.response
      else done (err (policy limiter_closed))

  -- `for attempt in 1..=max_attempts`, by the rounds left; the second part is the sleeps.
  unfoldable pub request_loop :
      ℕ → RetryPolicy → Option Text → ℕ → (ℕ → Attempt) → Result TmdbClientError (List ℕ) × List ℕ
  request_loop zero p host attempt network = (err transport, [])
  request_loop (suc rounds) p host attempt network =
      let later = request_loop rounds p host (suc attempt) network in
      elim (attempt_step p host attempt (network attempt)) [
        | done result ↦ (result, [])
        | again delay ↦ (later.0, delay ∷ later.1)
      ]

  unfoldable pub request_bytes :
      RetryPolicy → Option Text → (ℕ → Attempt) → Result TmdbClientError (List ℕ) × List ℕ
  unfolding request_loop
  request_bytes p host network = request_loop p.max_attempts p host 1 network
