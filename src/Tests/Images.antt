-- ===== src/Tests/Images.antt =====
-- Image headers, byte by byte.
use tmdb_mirror.Prelude.{ℕ, ◌≡◌, refl, List, [], ◌∷◌, ◌++◌, Option, some, codes, arith}
use tmdb_mirror.Prelude.Exec.{returned, Returns}
use tmdb_mirror.Images.Header.{
  png_header, png_fields, parse_png_dimensions, skip_fill, frame_fields, jpeg_segment, jpeg_marker,
  next_marker, jpeg_scan, parse_jpeg_dimensions,
}
use tmdb_mirror.Images.Header.Webp.{
  lossless_fields, webp_chunk, webp_container, parse_webp_dimensions, DecodedFormat,
  validate_image_header,
}
use tmdb_mirror.Images.Header.Bounds.{Between}
use tmdb_mirror.Images.Header.Check.{Answer, parsers-Returns, validate_image_header-Answer}

abbrev small_png : List ℕ
small_png =
    0x89 ∷ codes "PNG"
    ++ 13 ∷ 10 ∷ 0x1a ∷ 10 ∷ 0 ∷ 0 ∷ 0 ∷ 13 ∷ codes "IHDR"
    ++ 0 ∷ 0 ∷ 1 ∷ 44 ∷ 0 ∷ 0 ∷ 0 ∷ 200 ∷ []

-- A comment segment, a fill byte and a baseline frame.
abbrev pub small_jpeg : List ℕ
small_jpeg =
    0xff ∷ 0xd8 ∷ 0xff ∷ 0xfe ∷ 0 ∷ 4 ∷ 1 ∷ 2 ∷ 0xff ∷ 0xff ∷ 0xc0 ∷ 0 ∷ 11 ∷ 8 ∷ 0 ∷ 200 ∷ 1 ∷ 44
    ∷ 1 ∷ 0 ∷ 0 ∷ 0 ∷ []

abbrev small_webp : List ℕ
small_webp =
    codes "RIFF"
    ++ 0 ∷ 0 ∷ 0 ∷ 0 ∷ codes "WEBPVP8L"
    ++ 5 ∷ 0 ∷ 0 ∷ 0 ∷ 0x2f ∷ 43 ∷ 193 ∷ 49 ∷ 0 ∷ []

headers :
    (parse_png_dimensions small_png ≡ returned (some (record { width = 300; height = 200 })))
    × (parse_jpeg_dimensions small_jpeg ≡ returned (some (record { width = 300; height = 200 })))
    × (parse_webp_dimensions small_webp ≡ returned (some (record { width = 300; height = 200 })))
unfolding parse_png_dimensions png_header png_fields parse_jpeg_dimensions jpeg_scan next_marker
    skip_fill jpeg_marker jpeg_segment frame_fields parse_webp_dimensions webp_container webp_chunk
    lossless_fields
headers = (refl, refl, refl)

parsers-Returns_example :
    Returns (Between 0 4294967296) (parse_png_dimensions small_png)
    × Returns (Between 0 65536) (parse_jpeg_dimensions small_png)
    × Returns (Between 0 16777217) (parse_webp_dimensions small_png)
parsers-Returns_example = parsers-Returns small_png (omega arith)

-- A decoder that finds 300 by 200 pixels in everything.
abbrev pub decode : DecodedFormat → List ℕ → Option (ℕ × ℕ)
decode format body = some (300, 200)

validate_image_header-Answer_example :
    Returns
      (Answer decode (codes "image/jpeg") small_jpeg)
      (validate_image_header decode (codes "image/jpeg") small_jpeg)
validate_image_header-Answer_example =
    validate_image_header-Answer decode (codes "image/jpeg") small_jpeg (omega arith)
