-- ===== src/Tests/Download.antt =====
-- Downloads at concrete inputs.
use tmdb_mirror.Prelude.{
  ℕ, ◌≡◌, refl, List, [], ◌∷◌, some, none, if◌then◌else◌, text_eq, ◌==◌, codes, ok, err, length,
  Result, arith,
}
use tmdb_mirror.Prelude.Exec.{Returns}
use tmdb_mirror.Images.Header.Webp.{TransportError, disallowed_host}
use tmdb_mirror.Images.Payload.{Url}
use tmdb_mirror.Upstream.Client.{to_ascii_lowercase}
use tmdb_mirror.Images.Download.{
  HttpResponse, DownloadPolicy, complete, allows, on_response, fetch_rounds, fetch_direct, direct,
  validate_success,
}
use tmdb_mirror.Images.Download.Redirects.{Fetches, fetch_direct-Fetches}
use tmdb_mirror.Images.Download.Accepted.{IsImageOf, validate_success-IsImageOf}
use tmdb_mirror.Images.Download.Whole.{Surroundings, download, IsConfined, download-IsConfined}
use tmdb_mirror.Tests.Payload.{parse_url, thumbnail}
use tmdb_mirror.Tests.Images.{small_jpeg, decode}

abbrev policy : DownloadPolicy
policy = record {
  max_bytes = 1000;
  max_redirects = 2;
  timeout = 1000000000;
  allowed_hosts = codes "image.tmdb.org" ∷ [];
}

abbrev url_of : List ℕ → Url
url_of host = record {
  scheme = codes "https";
  host_str = some host;
  username = [];
  password = none;
  query = none;
  fragment = none;
}

abbrev answer : HttpResponse
answer = record {
  status = 200;
  url = url_of (codes "image.tmdb.org");
  content_type = some (codes "image/jpeg; q=1");
  content_length = none;
  location = none;
  body = small_jpeg;
  body_state = complete;
}

-- One redirect to an allowed host, then one to another host.
abbrev get : ℕ → Url → Result TransportError HttpResponse
get n url =
    if n == 0
    then ok (record answer { status = 302; location = some (url_of (codes "IMAGE.tmdb.org")) })
    else ok (record answer { status = 302; location = some (url_of (codes "evil.example")) })

redirects :
    fetch_direct get policy (url_of (codes "image.tmdb.org"))
    ≡ (err disallowed_host, url_of (codes "image.tmdb.org") ∷ url_of (codes "IMAGE.tmdb.org") ∷ [])
unfolding fetch_direct fetch_rounds on_response allows to_ascii_lowercase text_eq
redirects = refl

fetch_direct-Fetches_example :
    Fetches policy 3
      (url_of (codes "image.tmdb.org"))
      (fetch_direct get policy (url_of (codes "image.tmdb.org")))
fetch_direct-Fetches_example = fetch_direct-Fetches get policy (url_of (codes "image.tmdb.org"))

-- A digest that is the length.
abbrev digest_of : List ℕ → List ℕ
digest_of body = length body ∷ []

validate_success-IsImageOf_example :
    Returns
      (IsImageOf decode digest_of policy answer direct)
      (validate_success decode digest_of policy answer direct)
validate_success-IsImageOf_example =
    validate_success-IsImageOf decode digest_of policy answer direct (omega arith)

abbrev env : Surroundings
env = record {
  get = get;
  fallback = none;
  decode = decode;
  sha256 = digest_of;
  parse_url = parse_url;
}

download-IsConfined_example : IsConfined env policy (download env policy thumbnail).1
download-IsConfined_example = download-IsConfined env policy thumbnail
