-- ===== src/Images/Download/Whole.antt =====
-- apps/tmdb-images/src/image.rs: the download of an image from its payload, with the fallback.
use tmdb_mirror.Prelude.{
  ℕ, ◌≤◌, ◌≡◌, inl, inr, suc, true, List, [], ◌∷◌, Option, none, some, if◌then◌else◌, length, All,
  Result, ok, err, Text, arith, Bool-cases,
}
use tmdb_mirror.Prelude.Exec.{Exec, returned}
use tmdb_mirror.Images.Header.Webp.{
  DecodedFormat, ImageError, TransportError, transport, disallowed_host, challenge_detected,
  fallback_unavailable,
}
use tmdb_mirror.Images.Payload.{Url, ImageJobPayload, ImagePayloadError, validate, parse_source_url}
use tmdb_mirror.Images.Download.{
  HttpResponse, DownloadPolicy, allows, detect_challenge, fetch_direct, direct, trawl,
  DownloadedImage, validate_success,
}
use tmdb_mirror.Images.Download.Redirects.{Fetches, fetch_direct-Fetches}

-- `ImageJobPayload::source_url`.
unfoldable pub payload_source_url :
    (Text → Option Url) → ImageJobPayload → Result ImagePayloadError Url
payload_source_url parse_url payload = elim (validate parse_url payload) [
  | err e ↦ err e
  | ok u ↦ parse_source_url parse_url payload.source_url
]

-- The network, the fallback if there is one, the decoder, the hash and the parser of URLs.
pub record Surroundings : Type 0 where
  pub get : ℕ → Url → Result TransportError HttpResponse
  pub fallback : Option (Url → Result TransportError HttpResponse)
  pub decode : DecodedFormat → List ℕ → Option (ℕ × ℕ)
  pub sha256 : List ℕ → List ℕ
  pub parse_url : Text → Option Url

module _ (env : Surroundings) (policy : DownloadPolicy) where
  abbrev accept_trawl :
      Result TransportError HttpResponse → Exec (Result ImageError DownloadedImage)
  accept_trawl (err e) = returned (err (transport e))
  accept_trawl (ok r) =
      if detect_challenge r
      then returned (err challenge_detected)
      else validate_success env.decode env.sha256 policy r trawl

  abbrev pub try_fallback :
      Option (Url → Result TransportError HttpResponse)
      → Url
      → Exec (Result ImageError DownloadedImage)
  try_fallback none url = returned (err fallback_unavailable)
  try_fallback (some fetch) url = accept_trawl (fetch url)

  abbrev pub after_fetch :
      Url → Result ImageError HttpResponse → Exec (Result ImageError DownloadedImage)
  after_fetch url (ok r) = validate_success env.decode env.sha256 policy r direct
  after_fetch url (err challenge_detected) = try_fallback env.fallback url
  after_fetch url (err e) = returned (err e)

  abbrev pub download_from :
      Result ImagePayloadError Url → Exec (Result ImageError DownloadedImage) × List Url
  download_from (err e) = (returned (err disallowed_host), [])
  download_from (ok url) =
      let (fetched, urls) = fetch_direct env.get policy url in
      if allows policy url
      then (after_fetch url fetched, urls)
      else (returned (err disallowed_host), [])

  unfoldable pub download : ImageJobPayload → Exec (Result ImageError DownloadedImage) × List Url
  download payload = download_from (payload_source_url env.parse_url payload)

  -- Every URL of a list is allowed, and there are at most as many as the policy allows requests.
  abbrev pub IsConfined : List Url → Type 0
  IsConfined urls =
      All (λ url. allows policy url ≡ true) urls × (length urls ≤ suc policy.max_redirects)

  IsConfined-of_Fetches :
      (url : Url) (run : Result ImageError HttpResponse × List Url)
      → allows policy url ≡ true
      → Fetches policy (suc policy.max_redirects) url run
      → IsConfined run.1
  IsConfined-of_Fetches url (result, []) allowed h = (tt, omega arith)
  IsConfined-of_Fetches url (result, u ∷ urls) allowed (same, few, final, rest) =
      ((rw same allowed, rest), omega arith)

  download_from-IsConfined :
      (source : Result ImagePayloadError Url) → IsConfined (download_from source).1
  download_from-IsConfined (err e) = (tt, omega arith)
  download_from-IsConfined (ok url) = elim (Bool-cases (allows policy url)) [
    | inl allowed ↦ rw allowed (
        IsConfined-of_Fetches url (fetch_direct env.get policy url) allowed
          (fetch_direct-Fetches env.get policy url))
    | inr refused ↦ rw refused (tt, omega arith)
  ]

  -- Whatever the payload is and the network answers, the direct requests of a download go to
  -- allowed URLs only, and are at most one more than the redirects allowed.
  pub download-IsConfined : (payload : ImageJobPayload) → IsConfined (download payload).1
  unfolding download
  download-IsConfined payload = download_from-IsConfined (payload_source_url env.parse_url payload)
