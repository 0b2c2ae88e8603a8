-- ===== src/Images/Download.antt =====
-- apps/tmdb-images/src/image.rs: the download of an image: the redirects, the fallback and the
-- checks of a response. The network is given as a function from the number of a request and its URL
-- to an answer; hashing and decoding are parameters. The list in a result is the URLs requested.
pub mod Redirects
pub mod Accepted
pub mod Whole
use tmdb_mirror.Prelude.{
  ℕ, zero, suc, ◌+◌, ◌*◌, ◌≡◌, Bool, true, false, not, ◌&&◌, ◌||◌, List, [], ◌∷◌, Option, none,
  some, ltb, leb, ◌==◌, if◌then◌else◌, length, any, map, Result, ok, err, Text, codes, text_eq,
  is_control,
}
use tmdb_mirror.Prelude.Exec.{Exec, returned, ◌>>=◌}
use tmdb_mirror.Upstream.Client.{contains, to_ascii_lowercase}
use tmdb_mirror.Images.Header.{ImageDimensions}
use tmdb_mirror.Images.Header.Webp.{
  DecodedFormat, ImageError, TransportError, transport, disallowed_host, redirect_limit,
  invalid_redirect, challenge_detected, fallback_unavailable, unsupported_mime, truncated,
  http_status, invalid_policy, too_large, is_allowed_mime, canonical_mime, validate_image_header,
}
use tmdb_mirror.Images.Payload.{
  Url, ImageJobPayload, ImagePayloadError, validate, parse_source_url, is_some, is_empty,
}

pub data BodyState : Type 0 where
  complete limited failed : BodyState

pub record HttpResponse : Type 0 where
  pub status : ℕ
  pub url : Url
  pub content_type : Option Text
  pub content_length : Option ℕ
  pub location : Option Url
  pub body : List ℕ
  pub body_state : BodyState

-- The timeout is in nanoseconds.
pub record DownloadPolicy : Type 0 where
  pub max_bytes : ℕ
  pub max_redirects : ℕ
  pub timeout : ℕ
  pub allowed_hosts : List Text

unfoldable pub is_bad_host : Text → Bool
is_bad_host host =
    is_empty host || any (λ c. (c == b'/') || (c == b'@')) host || any is_control host

unfoldable pub policy_new : ℕ → ℕ → ℕ → List Text → Result ImageError DownloadPolicy
policy_new max_bytes max_redirects timeout hosts =
    let allowed = map to_ascii_lowercase hosts in
    if (max_bytes == 0) || ltb (1024 * 1024 * 1024) max_bytes || (timeout == 0)
    then err invalid_policy
    else if (length allowed == 0) || any is_bad_host allowed
    then err invalid_policy
    else ok (record {
      max_bytes = max_bytes;
      max_redirects = max_redirects;
      timeout = timeout;
      allowed_hosts = allowed;
    })

abbrev pub host_allowed : List Text → Option Text → Bool
host_allowed hosts none = false
host_allowed hosts (some host) = any (λ h. text_eq h (to_ascii_lowercase host)) hosts

unfoldable pub allows : DownloadPolicy → Url → Bool
allows policy url =
    host_allowed policy.allowed_hosts url.host_str
    && text_eq url.scheme (codes "https")
    && is_empty url.username
    && not (is_some url.password)

unfoldable pub detect_challenge : HttpResponse → Bool
detect_challenge r =
    ((r.status == 403) || (r.status == 503))
    && any (contains (to_ascii_lowercase r.body)) (
        codes "cf-chl-"
        ∷ codes "challenge-platform"
        ∷ codes "just a moment"
        ∷ codes "attention required"
        ∷ codes "captcha"
        ∷ [])

-- How a round of `fetch_direct` ends: with a result, or with the next URL.
pub data Fetched : Type 0 where
  ended : Result ImageError HttpResponse → Fetched
  redirected : Url → Fetched

abbrev pub follow_location : DownloadPolicy → Option Url → Fetched
follow_location policy none = ended (err invalid_redirect)
follow_location policy (some next) =
    if allows policy next then redirected next else ended (err disallowed_host)

-- The rounds that are left behind this one tell whether the limit is reached.
unfoldable pub on_response : DownloadPolicy → ℕ → HttpResponse → Fetched
on_response policy left r =
    if leb 300 r.status && ltb r.status 400
    then (if left == 0 then ended (err redirect_limit) else follow_location policy r.location)
    else if detect_challenge r
    then ended (err challenge_detected)
    else ended (ok r)

abbrev pub on_get : DownloadPolicy → ℕ → Result TransportError HttpResponse → Fetched
on_get policy left (err e) = ended (err (transport e))
on_get policy left (ok r) = on_response policy left r

-- The rounds behind one, by how it ended.
abbrev pub behind_round :
    (Url → Result ImageError HttpResponse × List Url)
    → Url
    → Fetched
    → Result ImageError HttpResponse × List Url
behind_round more url (ended result) = (result, url ∷ [])
behind_round more url (redirected next) = let later = more next in (later.0, url ∷ later.1)

module _ (get : ℕ → Url → Result TransportError HttpResponse) where
  -- `for redirect_count in 0..=max_redirects`, by the rounds left.
  unfoldable pub fetch_rounds :
      DownloadPolicy → ℕ → ℕ → Url → Result ImageError HttpResponse × List Url
  fetch_rounds policy zero n url = (err redirect_limit, [])
  fetch_rounds policy (suc left) n url =
      behind_round (fetch_rounds policy left (suc n)) url (on_get policy left (get n url))

  unfoldable pub fetch_direct : DownloadPolicy → Url → Result ImageError HttpResponse × List Url
  fetch_direct policy url = fetch_rounds policy (suc policy.max_redirects) 0 url

pub data ImageSource : Type 0 where
  direct trawl : ImageSource

pub record DownloadedImage : Type 0 where
  pub body : List ℕ
  pub mime_type : Text
  pub final_url : Url
  pub source : ImageSource
  pub digest : List ℕ
  pub width : ℕ
  pub height : ℕ

abbrev and_then : Option Text → (Text → Option Text) → Option Text
and_then none f = none
and_then (some a) f = f a

abbrev exceeds : Option ℕ → ℕ → Bool
exceeds none most = false
exceeds (some n) most = ltb most n

abbrev differs : Option ℕ → ℕ → Bool
differs none m = false
differs (some n) m = not (n == m)

abbrev is_limited : BodyState → Bool
is_limited limited = true
is_limited _ = false

abbrev is_failed : BodyState → Bool
is_failed failed = true
is_failed _ = false

-- The checks behind the MIME type.
unfoldable pub check_body : DownloadPolicy → HttpResponse → Result ImageError (Unit {0})
check_body policy r =
    if is_limited r.body_state || ltb policy.max_bytes (length r.body)
    then err too_large
    else if is_failed r.body_state
    then err ImageError.body_read
    else if exceeds r.content_length policy.max_bytes
    then err too_large
    else if differs r.content_length (length r.body)
    then err truncated
    else ok tt

module _ (decode : DecodedFormat → List ℕ → Option (ℕ × ℕ)) (sha256 : List ℕ → List ℕ) where
  abbrev pub finish :
      HttpResponse
      → ImageSource
      → Text
      → Result ImageError ImageDimensions
      → Result ImageError DownloadedImage
  finish r source mime_type (err e) = err e
  finish r source mime_type (ok d) = ok (record {
    body = r.body;
    mime_type = mime_type;
    final_url = r.url;
    source = source;
    digest = sha256 r.body;
    width = d.width;
    height = d.height;
  })

  abbrev pub check_header :
      HttpResponse
      → ImageSource
      → Text
      → Result ImageError (Unit {0})
      → Exec (Result ImageError DownloadedImage)
  check_header r source mime_type (err e) = returned (err e)
  check_header r source mime_type (ok u) =
      validate_image_header decode mime_type r.body >>= λ d. returned (finish r source mime_type d)

  abbrev pub check_mime :
      DownloadPolicy
      → HttpResponse
      → ImageSource
      → Option Text
      → Exec (Result ImageError DownloadedImage)
  check_mime policy r source none = returned (err unsupported_mime)
  check_mime policy r source (some mime_type) =
      if not (is_allowed_mime mime_type)
      then returned (err unsupported_mime)
      else check_header r source mime_type (check_body policy r)

  unfoldable pub validate_success :
      DownloadPolicy → HttpResponse → ImageSource → Exec (Result ImageError DownloadedImage)
  validate_success policy r source =
      if not (leb 200 r.status && ltb r.status 300)
      then returned (err (http_status r.status))
      else check_mime policy r source (and_then r.content_type canonical_mime)
