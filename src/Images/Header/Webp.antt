-- ===== src/Images/Header/Webp.antt =====
-- apps/tmdb-images/src/image.rs: WebP headers, MIME types and the whole header check.
use tmdb_mirror.Prelude.{
  ℕ, ◌+◌, ◌*◌, ◌/◌, ◌%◌, Bool, true, false, not, ◌&&◌, ◌||◌, List, [], ◌∷◌, Option, none, some, ltb,
  leb, ◌==◌, if◌then◌else◌, length, Text, codes, text_eq, trim, Result, ok, err,
}
use tmdb_mirror.Prelude.Exec.{Exec, returned, ◌>>=◌, at, slice, le16, le32}
use tmdb_mirror.Images.Header.{
  ImageDimensions, any_window, window_is, parse_png_dimensions, parse_jpeg_dimensions,
  max_image_dimension, max_image_pixels,
}

-- `VP8X`: two 24-bit little-endian fields, one less than the dimensions.
unfoldable pub extended_fields : List ℕ → Exec (Option ImageDimensions)
extended_fields body = do
  w0 ← at body 24
  w1 ← at body 25
  w2 ← at body 26
  h0 ← at body 27
  h1 ← at body 28
  h2 ← at body 29
  returned (
      some (record {
        width = 1 + w0 + w1 * 256 + w2 * 65536;
        height = 1 + h0 + h1 * 256 + h2 * 65536;
      }))

-- `VP8 `: two 14-bit fields behind the start code.
unfoldable pub lossy_fields : List ℕ → Exec (Option ImageDimensions)
unfolding text_eq
lossy_fields body = do
  start_code ← slice body 23 26
  if not (text_eq start_code (0x9d ∷ 0x01 ∷ 0x2a ∷ []))
      then returned none
      else (le16 body 26 >>= λ w.
          le16 body 28 >>= λ h. returned (some (record { width = w % 16384; height = h % 16384 })))

-- `VP8L`: two 14-bit fields of one word, one less than the dimensions.
unfoldable pub lossless_fields : List ℕ → Exec (Option ImageDimensions)
lossless_fields body = do
  signature ← at body 20
  if not (signature == 0x2f)
      then returned none
      else (le32 body 21 >>= λ bits.
          returned (some (record { width = bits % 16384 + 1; height = bits / 16384 % 16384 + 1 })))

-- The match on the chunk's tag, once the chunk is known to lie in the body.
unfoldable pub webp_chunk : List ℕ → Text → ℕ → Exec (Option ImageDimensions)
unfolding text_eq
webp_chunk body tag chunk_size =
    if text_eq tag (codes "VP8X") && leb 10 chunk_size
    then extended_fields body
    else if text_eq tag (codes "VP8 ") && leb 10 chunk_size
    then lossy_fields body
    else if text_eq tag (codes "VP8L") && leb 5 chunk_size
    then lossless_fields body
    else returned none

-- Behind the length check and the two tags of the container.
unfoldable pub webp_container : List ℕ → Exec (Option ImageDimensions)
webp_container body = do
  chunk_size ← le32 body 16
  if ltb (length body) (20 + chunk_size)
      then returned none
      else (slice body 12 16 >>= λ tag. webp_chunk body tag chunk_size)

unfoldable pub parse_webp_dimensions : List ℕ → Exec (Option ImageDimensions)
unfolding text_eq
parse_webp_dimensions body =
    if ltb (length body) 20
    then returned none
    else (slice body 0 4 >>= λ riff.
        if not (text_eq riff (codes "RIFF"))
        then returned none
        else (slice body 8 12 >>= λ webp.
            if not (text_eq webp (codes "WEBP")) then returned none else webp_container body))

-- The first disjunct of the test: the animation flag of a `VP8X` chunk.
unfoldable pub has_animation_flag : List ℕ → Exec Bool
unfolding text_eq
has_animation_flag body =
    if ltb (length body) 21
    then returned false
    else (slice body 12 16 >>= λ tag.
        if not (text_eq tag (codes "VP8X"))
        then returned false
        else (at body 20 >>= λ flags. returned (flags / 2 % 2 == 1)))

unfoldable pub webp_is_animated : List ℕ → Exec Bool
unfolding any_window text_eq
webp_is_animated body = has_animation_flag body >>= λ flagged.
    if flagged
    then returned true
    else returned (
        any_window (λ a b c d. window_is (codes "ANIM") a b c d || window_is (codes "ANMF") a b c d)
          body)

unfoldable pub is_allowed_mime : Text → Bool
unfolding text_eq
is_allowed_mime value =
    text_eq value (codes "image/jpeg")
    || text_eq value (codes "image/png")
    || text_eq value (codes "image/webp")

-- `value.split(';').next()`.
before_semicolon : Text → Text
before_semicolon [] = []
before_semicolon (c ∷ s) = if c == b';' then [] else c ∷ before_semicolon s

abbrev nonempty : Text → Option Text
nonempty [] = none
nonempty (c ∷ s) = some (c ∷ s)

unfoldable pub canonical_mime : Text → Option Text
unfolding before_semicolon trim
canonical_mime value = nonempty (trim (before_semicolon value))

-- The formats of the image crate that the worker decodes.
pub data DecodedFormat : Type 0 where
  jpeg png webp : DecodedFormat

pub data TransportError : Type 0 where
  timeout request body_read : TransportError

pub data ImageError : Type 0 where
  invalid_policy invalid_trawl_url disallowed_host invalid_redirect redirect_limit : ImageError
  challenge_detected fallback_unavailable unsupported_mime invalid_image : ImageError
  image_too_large too_large truncated body_read : ImageError
  http_status : ℕ → ImageError
  transport : TransportError → ImageError

abbrev pub is_too_large : ImageDimensions → Bool
is_too_large d =
    (d.width == 0)
    || (d.height == 0)
    || ltb max_image_dimension d.width
    || ltb max_image_dimension d.height
    || ltb max_image_pixels (d.width * d.height)

-- `load_from_memory_with_format`: the dimensions of the decoded image, if it decodes.
module _ (decode : DecodedFormat → List ℕ → Option (ℕ × ℕ)) where
  -- The checks behind the header's own dimensions.
  unfoldable pub check_decoded :
      DecodedFormat → List ℕ → Option ImageDimensions → Result ImageError ImageDimensions
  check_decoded format body none = err invalid_image
  check_decoded format body (some d) =
      if is_too_large d then err image_too_large else elim (decode format body) [
        | none ↦ err invalid_image
        | some (w, h) ↦
            if not (w == d.width) || not (h == d.height) then err invalid_image else ok d
      ]

  abbrev pub checking :
      DecodedFormat
      → List ℕ
      → Exec (Option ImageDimensions)
      → Exec (Result ImageError ImageDimensions)
  checking format body parsed = parsed >>= λ r. returned (check_decoded format body r)

  unfoldable pub validate_image_header : Text → List ℕ → Exec (Result ImageError ImageDimensions)
  unfolding any_window text_eq
  validate_image_header mime_type body =
      if text_eq mime_type (codes "image/png")
      then (if any_window (window_is (codes "acTL")) body
          then returned (err unsupported_mime)
          else checking png body (parse_png_dimensions body))
      else if text_eq mime_type (codes "image/jpeg")
      then checking jpeg body (parse_jpeg_dimensions body)
      else if text_eq mime_type (codes "image/webp")
      then (webp_is_animated body >>= λ animated.
          if animated
          then returned (err unsupported_mime)
          else checking webp body (parse_webp_dimensions body))
      else returned (err unsupported_mime)
