-- ===== src/Images/Header.antt =====
-- apps/tmdb-images/src/image.rs: the format checks and the dimensions in an image's header.
-- A body is the list of its bytes. The decoder of the image crate is a parameter of
-- `validate_image_header`.
pub mod Webp
pub mod Bounds
pub mod Jpeg
pub mod Check
use tmdb_mirror.Prelude.{
  ℕ, zero, suc, ◌+◌, ◌-◌, ◌*◌, ◌/◌, ◌%◌, ◌≡◌, Bool, true, false, not, ◌&&◌, ◌||◌, List, [], ◌∷◌,
  Option, none, some, ltb, leb, ◌==◌, if◌then◌else◌, length, take, drop, any, Text, codes, text_eq,
  Result, ok, err,
}
use tmdb_mirror.Prelude.Exec.{
  Exec, returned, panicked, out_of_fuel, ◌>>=◌, at, slice, be16, le16, be32, le32,
}

abbrev pub max_image_dimension : ℕ
max_image_dimension = 16384

abbrev pub max_image_pixels : ℕ
max_image_pixels = 67108864

pub record ImageDimensions : Type 0 where
  pub width : ℕ
  pub height : ℕ

-- `body.starts_with(prefix)`.
unfoldable pub starts_with : List ℕ → List ℕ → Bool
starts_with body [] = true
starts_with [] (b ∷ prefix) = false
starts_with (a ∷ body) (b ∷ prefix) = (a == b) && starts_with body prefix

-- `body.windows(4).any(..)`.
unfoldable pub any_window : (ℕ → ℕ → ℕ → ℕ → Bool) → List ℕ → Bool
any_window p (a ∷ b ∷ c ∷ d ∷ rest) = p a b c d || any_window p (b ∷ c ∷ d ∷ rest)
any_window p _ = false

abbrev pub window_is : Text → ℕ → ℕ → ℕ → ℕ → Bool
window_is tag a b c d = text_eq (a ∷ b ∷ c ∷ d ∷ []) tag

abbrev png_signature : List ℕ
png_signature = 0x89 ∷ b'P' ∷ b'N' ∷ b'G' ∷ 13 ∷ 10 ∷ 0x1a ∷ 10 ∷ []

unfoldable pub png_fields : List ℕ → Exec (Option ImageDimensions)
png_fields body = do
  width ← be32 body 16
  height ← be32 body 20
  returned (some (record { width = width; height = height }))

unfoldable pub png_header : List ℕ → Exec (Option ImageDimensions)
unfolding text_eq
png_header body = do
  tag ← slice body 12 16
  if text_eq tag (codes "IHDR") then png_fields body else returned none

unfoldable pub parse_png_dimensions : List ℕ → Exec (Option ImageDimensions)
unfolding starts_with
parse_png_dimensions body =
    if leb 24 (length body) && starts_with body png_signature
    then png_header body
    else returned none

unfoldable pub is_jpeg_start_of_frame : ℕ → Bool
is_jpeg_start_of_frame marker =
    (leb 0xc0 marker && leb marker 0xc3)
    || (leb 0xc5 marker && leb marker 0xc7)
    || (leb 0xc9 marker && leb marker 0xcb)
    || (leb 0xcd marker && leb marker 0xcf)

-- The inner `while`: over the fill bytes before a marker.
unfoldable pub skip_fill : ℕ → List ℕ → ℕ → Exec ℕ
skip_fill zero body index = out_of_fuel
skip_fill (suc fuel) body index =
    let more = skip_fill fuel body (index + 1) in
    if ltb index (length body)
    then (at body index >>= λ byte. if byte == 0xff then more else returned index)
    else returned index

-- What the rest of a round does: return, or go on at an index.
pub data Step : Type 0 where
  stop : Option ImageDimensions → Step
  go_on : ℕ → Step

unfoldable pub frame_fields : List ℕ → ℕ → Exec Step
frame_fields body index = do
  height ← be16 body (index + 3)
  width ← be16 body (index + 5)
  returned (stop (some (record { width = width; height = height })))

-- A segment behind its marker, which stands before `index`.
unfoldable pub jpeg_segment : List ℕ → ℕ → ℕ → Exec Step
unfolding is_jpeg_start_of_frame
jpeg_segment body marker index = do
  segment_length ← be16 body index
  if ltb segment_length 2 || ltb (length body) (index + segment_length)
      then returned (stop none)
      else if is_jpeg_start_of_frame marker
      then if ltb segment_length 7 then returned (stop none) else frame_fields body index
      else returned (go_on (index + segment_length))

-- A round of the outer loop behind the marker, which stands before `index`.
unfoldable pub jpeg_marker : List ℕ → ℕ → ℕ → Exec Step
jpeg_marker body marker index =
    if (marker == 0xd9) || (marker == 0xda)
    then returned (stop none)
    else if (marker == 0xd8) || (marker == 0x01) || (leb 0xd0 marker && leb marker 0xd7)
    then returned (go_on index)
    else if ltb (length body) (index + 2)
    then returned (stop none)
    else jpeg_segment body marker index

-- The head of a round: the marker behind its fill bytes.
unfoldable pub next_marker : List ℕ → ℕ → Exec Step
next_marker body index = do
  i ← skip_fill (suc (length body)) body index
  if leb (length body) i
      then returned (stop none)
      else at body i >>= λ marker. jpeg_marker body marker (i + 1)

-- The outer `while index + 1 < body.len()`.
unfoldable pub jpeg_scan : ℕ → List ℕ → ℕ → Exec (Option ImageDimensions)
jpeg_scan zero body index = out_of_fuel
jpeg_scan (suc fuel) body index =
    if ltb (index + 1) (length body)
    then (next_marker body index >>= λ step. elim step [
      | stop r ↦ returned r
      | go_on j ↦ jpeg_scan fuel body j
    ])
    else returned none

unfoldable pub parse_jpeg_dimensions : List ℕ → Exec (Option ImageDimensions)
parse_jpeg_dimensions body =
    if ltb (length body) 4
    then returned none
    else (at body 0 >>= λ first.
        if not (first == 0xff)
        then returned none
        else (at body 1 >>= λ second.
            if not (second == 0xd8) then returned none else jpeg_scan (suc (length body)) body 2))
