-- ===== src/Images/Header/Jpeg.antt =====
-- The marker scan of a JPEG header returns for every body, within its bounds.
use tmdb_mirror.Prelude.{
  ◌&&◌, ℕ, zero, suc, ◌+◌, ◌-◌, ◌≤◌, ◌<◌, List, length, ltb, ◌==◌, arith, Bool-cases, inl, inr,
}
use tmdb_mirror.Prelude.Exec.{Returns, IsBytes, get_or, get_or-byte, Returns->>=, Returns-map}
use tmdb_mirror.Images.Header.{
  skip_fill, frame_fields, jpeg_segment, jpeg_marker, next_marker, jpeg_scan, Step, stop, go_on,
  parse_jpeg_dimensions,
}
use tmdb_mirror.Images.Header.Bounds.{Between}

module _ (body : List ℕ) (bytes : IsBytes body) where
  skip_fill-Returns :
      (fuel index : ℕ)
      → length body - index < fuel
      → Returns (λ j. index ≤ j) (skip_fill fuel body index)
  unfolding skip_fill
  skip_fill-Returns zero index h = absurd (omega arith)
  skip_fill-Returns (suc fuel) index h =
      elim (Bool-cases (ltb index (length body) && (get_or body index 0 == 0xff))) [
        | inl fill ↦
            let rest =
              Returns-map (λ j. index + 1 ≤ j) (λ j. index ≤ j) (skip_fill fuel body (index + 1))
                (λ j hj. omega arith) (skip_fill-Returns fuel (index + 1) (ground arith)) in
            ground (arith, rest)
        | inr rest ↦ ground arith
      ]

  abbrev Advances : ℕ → Step → Type 0
  Advances index (stop r) = Between 0 65536 r
  Advances index (go_on j) = (index ≤ j) × (j ≤ length body)

  frame-Returns :
      (index : ℕ) → index + 7 ≤ length body → Returns (Advances index) (frame_fields body index)
  unfolding frame_fields
  frame-Returns index h = ground (
    arith,
    get_or-byte body (index + 3) bytes,
    get_or-byte body (index + 3 + 1) bytes,
    get_or-byte body (index + 5) bytes,
    get_or-byte body (index + 5 + 1) bytes,
  )

  segment-Returns :
      (marker index : ℕ)
      → index + 2 ≤ length body
      → Returns (Advances index) (jpeg_segment body marker index)
  unfolding jpeg_segment
  segment-Returns marker index h = ground (arith, frame-Returns index)

  marker-Returns :
      (marker index : ℕ)
      → index ≤ length body
      → Returns (Advances index) (jpeg_marker body marker index)
  unfolding jpeg_marker
  marker-Returns marker index h = ground (arith, segment-Returns marker index)

  Advances-le : (a b : ℕ) (step : Step) → a ≤ b → Advances b step → Advances a step
  Advances-le a b (stop r) h k = k
  Advances-le a b (go_on j) h k = omega arith

  -- A marker found at or behind `index`, in the body.
  marker_at :
      (index i marker : ℕ)
      → index ≤ i
      → i < length body
      → Returns (Advances (suc index)) (jpeg_marker body marker (i + 1))
  marker_at index i marker h k =
      Returns-map (Advances (i + 1)) (Advances (suc index)) (jpeg_marker body marker (i + 1))
        (λ step. Advances-le (suc index) (i + 1) step (omega arith))
        (marker-Returns marker (i + 1) (omega arith))

  next-Returns :
      (index : ℕ)
      → index + 1 < length body
      → Returns (Advances (suc index)) (next_marker body index)
  unfolding next_marker
  next-Returns index h =
      Returns->>= (λ i. index ≤ i) (Advances (suc index)) (skip_fill (suc (length body)) body index)
        _ (skip_fill-Returns (suc (length body)) index (omega arith))
        λ i hi. ground (arith, marker_at index i (get_or body i 0) hi)

  scan-Returns :
      (fuel index : ℕ)
      → length body - index < fuel
      → Returns (Between 0 65536) (jpeg_scan fuel body index)
  unfolding jpeg_scan
  scan-Returns zero index h = absurd (omega arith)
  scan-Returns (suc fuel) index h = elim (Bool-cases (ltb (index + 1) (length body))) [
    | inl more ↦
        rw (more, jpeg_scan)
          (Returns->>= (Advances (suc index)) (Between 0 65536) (next_marker body index) _
            (next-Returns index (ground arith))
            elim [ stop r ↦ λ b. b | go_on j ↦ λ a. scan-Returns fuel j (omega arith) ])
    | inr done ↦ rw (done, jpeg_scan) tt
  ]

  pub jpeg-Returns : Returns (Between 0 65536) (parse_jpeg_dimensions body)
  unfolding parse_jpeg_dimensions
  jpeg-Returns = ground (arith, scan-Returns (suc (length body)) 2)
