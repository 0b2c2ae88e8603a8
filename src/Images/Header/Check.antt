-- ===== src/Images/Header/Check.antt =====
-- The header parsers together, and what `validate_image_header` guarantees.
use tmdb_mirror.Prelude.{
  ℕ, ◌*◌, ◌≤◌, ◌≡◌, refl, ◌⊎◌, inl, inr, true, false, not, ◌||◌, List, Option, none, some, ◌==◌,
  Text, codes, text_eq, text_eq_iff, Result, ok, err, arith, Bool-cases, Option-cases,
}
use tmdb_mirror.Prelude.Exec.{Exec, Returns, IsBytes, Returns->>=}
use tmdb_mirror.Images.Header.{
  ImageDimensions, any_window, window_is, parse_png_dimensions, parse_jpeg_dimensions,
}
use tmdb_mirror.Images.Header.Webp.{
  parse_webp_dimensions, has_animation_flag, webp_is_animated, DecodedFormat, jpeg, png, webp,
  ImageError, unsupported_mime, invalid_image, image_too_large, is_too_large, check_decoded,
  checking, validate_image_header,
}
use tmdb_mirror.Images.Header.Bounds.{Between, png-Returns, webp-Returns}
use tmdb_mirror.Images.Header.Jpeg.{jpeg-Returns}

-- For every body the three parsers return, with no index out of bounds and no endless scan, and the
-- dimensions that they find fit the fields of the format: 32 bits in PNG, 16 in JPEG, 24 in WebP.
pub parsers-Returns :
    (body : List ℕ)
    → IsBytes body
    → Returns (Between 0 4294967296) (parse_png_dimensions body)
      × Returns (Between 0 65536) (parse_jpeg_dimensions body)
      × Returns (Between 0 16777217) (parse_webp_dimensions body)
parsers-Returns body h = (png-Returns body h, jpeg-Returns body h, webp-Returns body h)

module _ (decode : DecodedFormat → List ℕ → Option (ℕ × ℕ)) where
  -- What an accepted image is: bounded, and decoded to the dimensions of its header.
  pub record IsAccepted (format : DecodedFormat) (body : List ℕ) (d : ImageDimensions)
      : Type 0 where
    pub width : (1 ≤ d.width) × (d.width ≤ 16384)
    pub height : (1 ≤ d.height) × (d.height ≤ 16384)
    pub pixels : d.width * d.height ≤ 67108864
    pub decoded : decode format body ≡ some (d.width, d.height)

  -- What a check may answer about a body of a format.
  abbrev pub Verdict : DecodedFormat → List ℕ → Result ImageError ImageDimensions → Type 0
  Verdict format body (ok d) = IsAccepted format body d
  Verdict format body (err e) = (e ≡ unsupported_mime) ⊎ (e ≡ invalid_image) ⊎ (e ≡ image_too_large)

  check_decoded-Verdict :
      (format : DecodedFormat) (body : List ℕ) (parsed : Option ImageDimensions)
      → Verdict format body (check_decoded decode format body parsed)
  unfolding check_decoded
  check_decoded-Verdict format body none = ground arith
  check_decoded-Verdict format body (some d) = elim (Bool-cases (is_too_large d)) [
    | inl large ↦ rw (large, check_decoded) (ground arith)
    | inr small ↦
        rw (small, check_decoded)
          (elim (Option-cases (decode format body)) [
            | inl bad ↦ rw bad (ground arith)
            | inr ((w, h), e) ↦
                rw e (elim (Bool-cases (not (w == d.width) || not (h == d.height))) [
                  | inl differ ↦ rw differ (ground arith)
                  | inr same ↦ rw same (record {
                    width = ground arith;
                    height = ground arith;
                    pixels = ground arith;
                    decoded = ground (arith, e);
                  })
                ])
          ])
  ]

  -- The MIME type of a format.
  abbrev pub mime_of : DecodedFormat → Text
  mime_of jpeg = codes "image/jpeg"
  mime_of png = codes "image/png"
  mime_of webp = codes "image/webp"

  -- What the whole check may answer about a body of a MIME type.
  abbrev pub Answer : Text → List ℕ → Result ImageError ImageDimensions → Type 0
  Answer mime body (ok d) =
      (format : DecodedFormat) × (mime ≡ mime_of format) × IsAccepted format body d
  Answer mime body (err e) = (e ≡ unsupported_mime) ⊎ (e ≡ invalid_image) ⊎ (e ≡ image_too_large)

  Answer-of_Verdict :
      (format : DecodedFormat) (mime : Text) (body : List ℕ) (r : Result ImageError ImageDimensions)
      → mime ≡ mime_of format
      → Verdict format body r
      → Answer mime body r
  Answer-of_Verdict format mime body (ok d) e v = (format, e, v)
  Answer-of_Verdict format mime body (err x) e v = v

  checking-Returns :
      (format : DecodedFormat) (mime : Text) (body : List ℕ) (lo hi : ℕ)
      (m : Exec (Option ImageDimensions))
      → mime ≡ mime_of format
      → Returns (Between lo hi) m
      → Returns (Answer mime body) (checking decode format body m)
  checking-Returns format mime body lo hi m e h =
      Returns->>= (Between lo hi) (Answer mime body) m _ h λ parsed _.
        Answer-of_Verdict format mime body _ e (check_decoded-Verdict format body parsed)

animated-Returns : (body : List ℕ) → Returns (λ b. Unit {0}) (webp_is_animated body)
unfolding webp_is_animated has_animation_flag
animated-Returns body = ground arith

-- The whole check returns for every body and MIME type, with no index out of bounds. What it
-- accepts is JPEG, PNG or WebP by its MIME type, is from 1 to 16384 pixels wide and high and has at
-- most 67108864 pixels, and the decoder finds exactly the dimensions that are returned; all else is
-- refused as an unsupported type, an invalid or a too large image.
pub validate_image_header-Answer :
    (decode : DecodedFormat → List ℕ → Option (ℕ × ℕ)) (mime : Text) (body : List ℕ)
    → IsBytes body
    → Returns (Answer decode mime body) (validate_image_header decode mime body)
unfolding validate_image_header
validate_image_header-Answer decode mime body h =
    elim (Bool-cases (text_eq mime (mime_of decode png))) [
      | inl is_png ↦ rw is_png (elim (Bool-cases (any_window (window_is (codes "acTL")) body)) [
        | inl animated ↦ rw animated (inl refl)
        | inr still ↦ rw still (
            checking-Returns decode png mime body 0 4294967296 (parse_png_dimensions body)
              ((text_eq_iff mime (mime_of decode png)).0 is_png) (png-Returns body h))
      ])
      | inr not_png ↦ rw not_png (elim (Bool-cases (text_eq mime (mime_of decode jpeg))) [
        | inl is_jpeg ↦ rw is_jpeg (
            checking-Returns decode jpeg mime body 0 65536 (parse_jpeg_dimensions body)
              ((text_eq_iff mime (mime_of decode jpeg)).0 is_jpeg) (jpeg-Returns body h))
        | inr not_jpeg ↦ rw not_jpeg (elim (Bool-cases (text_eq mime (mime_of decode webp))) [
          | inl is_webp ↦ rw is_webp (
              Returns->>= (λ b. Unit {0}) (Answer decode mime body) (webp_is_animated body) _
                (animated-Returns body)
                (elim [
                  | true ↦ λ _. inl refl
                  | false ↦ λ _.
                      checking-Returns decode webp mime body 0 16777217 (parse_webp_dimensions body)
                        ((text_eq_iff mime (mime_of decode webp)).0 is_webp) (webp-Returns body h)
                ]))
          | inr other ↦ rw other (inl refl)
        ])
      ])
    ]
