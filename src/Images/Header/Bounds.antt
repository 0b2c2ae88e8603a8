-- ===== src/Images/Header/Bounds.antt =====
-- No body makes the header parsers panic or loop for ever, and the dimensions that they return
-- lie in the range of the format.
use tmdb_mirror.Prelude.{ℕ, ◌+◌, ◌≤◌, ◌<◌, List, Option, none, some, length, arith, Text}
use tmdb_mirror.Prelude.Exec.{Exec, returned, panicked, out_of_fuel, Returns, IsBytes, get_or-byte}
use tmdb_mirror.Images.Header.{ImageDimensions, parse_png_dimensions, png_header, png_fields}
use tmdb_mirror.Images.Header.Webp.{
  extended_fields, lossy_fields, lossless_fields, webp_chunk, webp_container, parse_webp_dimensions,
}

-- Dimensions from `lo` to below `hi`, where there are any.
abbrev pub Between : ℕ → ℕ → Option ImageDimensions → Type 0
Between lo hi none = Unit
Between lo hi (some d) = ((lo ≤ d.width) × (d.width < hi)) × ((lo ≤ d.height) × (d.height < hi))

Between-le :
    (lo hi lo' hi' : ℕ) (d : Option ImageDimensions)
    → lo' ≤ lo
    → hi ≤ hi'
    → Between lo hi d
    → Between lo' hi' d
Between-le lo hi lo' hi' none h k b = tt
Between-le lo hi lo' hi' (some d) h k b = omega arith

-- Wider bounds hold as well.
Returns-le :
    (lo hi lo' hi' : ℕ) (m : Exec (Option ImageDimensions))
    → lo' ≤ lo
    → hi ≤ hi'
    → Returns (Between lo hi) m
    → Returns (Between lo' hi') m
Returns-le lo hi lo' hi' (returned d) h k b = Between-le lo hi lo' hi' d h k b
Returns-le lo hi lo' hi' panicked h k b = b
Returns-le lo hi lo' hi' out_of_fuel h k b = b

module _ (body : List ℕ) (bytes : IsBytes body) where
  png_fields-Returns : 24 ≤ length body → Returns (Between 0 4294967296) (png_fields body)
  unfolding png_fields
  png_fields-Returns h = ground (
    arith,
    get_or-byte body 16 bytes,
    get_or-byte body 17 bytes,
    get_or-byte body 18 bytes,
    get_or-byte body 19 bytes,
    get_or-byte body 20 bytes,
    get_or-byte body 21 bytes,
    get_or-byte body 22 bytes,
    get_or-byte body 23 bytes,
  )

  png_header-Returns : 24 ≤ length body → Returns (Between 0 4294967296) (png_header body)
  unfolding png_header
  png_header-Returns h = ground (arith, png_fields-Returns)

  pub png-Returns : Returns (Between 0 4294967296) (parse_png_dimensions body)
  unfolding parse_png_dimensions
  png-Returns = ground (arith, png_header-Returns)

  extended-Returns : 30 ≤ length body → Returns (Between 1 16777217) (extended_fields body)
  unfolding extended_fields
  extended-Returns h = ground (
    arith,
    get_or-byte body 24 bytes,
    get_or-byte body 25 bytes,
    get_or-byte body 26 bytes,
    get_or-byte body 27 bytes,
    get_or-byte body 28 bytes,
    get_or-byte body 29 bytes,
  )

  lossy-Returns : 30 ≤ length body → Returns (Between 0 16384) (lossy_fields body)
  unfolding lossy_fields
  lossy-Returns h = ground arith

  lossless-Returns : 25 ≤ length body → Returns (Between 1 16385) (lossless_fields body)
  unfolding lossless_fields
  lossless-Returns h = ground arith

  webp_chunk-Returns :
      (tag : Text) (size : ℕ)
      → 20 + size ≤ length body
      → Returns (Between 0 16777217) (webp_chunk body tag size)
  unfolding webp_chunk
  webp_chunk-Returns tag size h = ground (
    arith,
    λ (l : 30 ≤ length body).
        Returns-le 1 16777217 0 16777217 (extended_fields body) (omega arith) (omega arith)
          (extended-Returns l),
    λ (l : 30 ≤ length body).
        Returns-le 0 16384 0 16777217 (lossy_fields body) (omega arith) (omega arith)
          (lossy-Returns l),
    λ (l : 25 ≤ length body).
        Returns-le 1 16385 0 16777217 (lossless_fields body) (omega arith) (omega arith)
          (lossless-Returns l),
  )

  webp_container-Returns : 20 ≤ length body → Returns (Between 0 16777217) (webp_container body)
  unfolding webp_container
  webp_container-Returns h = grind (arith, webp_chunk-Returns)

  pub webp-Returns : Returns (Between 0 16777217) (parse_webp_dimensions body)
  unfolding parse_webp_dimensions
  webp-Returns = ground (arith, webp_container-Returns)
