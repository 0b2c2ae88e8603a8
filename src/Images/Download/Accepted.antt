-- ===== src/Images/Download/Accepted.antt =====
-- apps/tmdb-images/src/image.rs: what a response must be to be accepted as an image.
use tmdb_mirror.Prelude.{
  ℕ, ◌≤◌, ◌<◌, ◌≡◌, refl, ◌⊎◌, inl, inr, ◌&&◌, List, Option, none, some, ltb, leb, length, Result,
  ok, err, Text, arith, Bool-cases,
}
use tmdb_mirror.Prelude.Exec.{Returns, Returns->>=, IsBytes}
use tmdb_mirror.Images.Header.{ImageDimensions}
use tmdb_mirror.Images.Header.Webp.{
  DecodedFormat, ImageError, is_allowed_mime, validate_image_header,
}
use tmdb_mirror.Images.Header.Check.{Answer, IsAccepted, mime_of, validate_image_header-Answer}
use tmdb_mirror.Images.Download.{
  HttpResponse, DownloadPolicy, complete, ImageSource, DownloadedImage, check_body, check_header,
  check_mime, finish, validate_success,
}

-- The body is complete, within the policy's bound, and as long as announced.
abbrev pub IsWhole : DownloadPolicy → HttpResponse → Type 0
IsWhole policy r =
    (length r.body ≤ policy.max_bytes)
    × (r.body_state ≡ complete)
    × ((r.content_length ≡ none) ⊎ (r.content_length ≡ some (length r.body)))

check_body-IsWhole :
    (policy : DownloadPolicy) (r : HttpResponse) → check_body policy r ≡ ok tt → IsWhole policy r
unfolding check_body
check_body-IsWhole policy r h = ground arith

module _ (decode : DecodedFormat → List ℕ → Option (ℕ × ℕ)) (sha256 : List ℕ → List ℕ) where
  -- What an accepted image is, with the response it was made of.
  abbrev pub IsImageOf :
      DownloadPolicy → HttpResponse → ImageSource → Result ImageError DownloadedImage → Type 0
  IsImageOf policy r source (err e) = Unit
  IsImageOf policy r source (ok image) =
      (200 ≤ r.status)
      × (r.status < 300)
      × IsWhole policy r
      × (image.body ≡ r.body)
      × (image.final_url ≡ r.url)
      × (image.source ≡ source)
      × (image.digest ≡ sha256 r.body)
      × ((format : DecodedFormat) × (image.mime_type ≡ mime_of decode format)
          × IsAccepted decode format r.body (record { width = image.width; height = image.height }))

  finish-IsImageOf :
      (policy : DownloadPolicy) (r : HttpResponse) (source : ImageSource) (mime : Text)
      (d : Result ImageError ImageDimensions)
      → ((200 ≤ r.status) × (r.status < 300))
      → IsWhole policy r
      → Answer decode mime r.body d
      → IsImageOf policy r source (finish decode sha256 r source mime d)
  finish-IsImageOf policy r source mime (err e) s w a = tt
  finish-IsImageOf policy r source mime (ok d) (lo, hi) w a = (lo, hi, w, refl, refl, refl, refl, a)

  header-IsImageOf :
      (policy : DownloadPolicy) (r : HttpResponse) (source : ImageSource) (mime : Text)
      (c : Result ImageError (Unit {0}))
      → IsBytes r.body
      → ((200 ≤ r.status) × (r.status < 300))
      → (c ≡ ok tt → IsWhole policy r)
      → Returns (IsImageOf policy r source) (check_header decode sha256 r source mime c)
  header-IsImageOf policy r source mime (err e) bytes s w = tt
  header-IsImageOf policy r source mime (ok u) bytes s w =
      Returns->>= (Answer decode mime r.body) (IsImageOf policy r source)
        (validate_image_header decode mime r.body) _
        (validate_image_header-Answer decode mime r.body bytes)
        (λ d a. finish-IsImageOf policy r source mime d s (w refl) a)

  mime-IsImageOf :
      (policy : DownloadPolicy) (r : HttpResponse) (source : ImageSource) (mime : Option Text)
      → IsBytes r.body
      → ((200 ≤ r.status) × (r.status < 300))
      → Returns (IsImageOf policy r source) (check_mime decode sha256 policy r source mime)
  mime-IsImageOf policy r source none bytes s = tt
  mime-IsImageOf policy r source (some mime) bytes s = elim (Bool-cases (is_allowed_mime mime)) [
    | inl good ↦ rw good (
        header-IsImageOf policy r source mime (check_body policy r) bytes s
          (check_body-IsWhole policy r))
    | inr bad ↦ rw bad tt
  ]

  -- The checks of a response return for every body of bytes. An image that they accept comes from a
  -- response of status 2xx with a complete body within the policy's bound and of the announced
  -- length, is the body with its digest, and is a JPEG, PNG or WebP by its MIME type with bounded
  -- dimensions on which header and decoder agree.
  pub validate_success-IsImageOf :
      (policy : DownloadPolicy) (r : HttpResponse) (source : ImageSource)
      → IsBytes r.body
      → Returns (IsImageOf policy r source) (validate_success decode sha256 policy r source)
  unfolding validate_success
  validate_success-IsImageOf policy r source bytes =
      elim (Bool-cases (leb 200 r.status && ltb r.status 300)) [
        | inl good ↦ rw good (mime-IsImageOf policy r source _ bytes (ground arith, ground arith))
        | inr bad ↦ rw bad tt
      ]
