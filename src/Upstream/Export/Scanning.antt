-- ===== src/Upstream/Export/Scanning.antt =====
-- crates/tmdb-upstream/src/parser.rs: the loop over the lines of an export.
use mathlib.Core.Path.{subst}
use tmdb_mirror.Prelude.{
  ℕ, zero, suc, ◌+◌, ◌-◌, ◌^◌, ◌≤◌, ◌<◌, ◌≡◌, refl, ap, ◌∙◌, ◌≢◌, ◌⊎◌, inl, inr, true, List, [],
  ◌∷◌, Option, none, some, length, Result, ok, err, All, arith, Option-cases,
}
use tmdb_mirror.Upstream.Export.{
  Buffers, LineReadError, read_line_bounded, DailyExportParser, Scan, LineStep, continue, finish,
  fail, on_line, scan_read, on_record, follow, reaches, scan_loop, ExportParseError, fresh,
}
use tmdb_mirror.Upstream.Export.Lines.{
  IsFull, bytes_of, SameRead, read_line-SameRead, read_line-shorter,
}

some-ok :
    {s t : Scan} {r : Option (Result ExportParseError Scan)}
    → r ≡ some (ok s)
    → r ≡ some (ok t)
    → s ≡ t
some-ok h k = cc

module _ (parse_record : List ℕ → Option ℕ) (parser : DailyExportParser) (limit : Option ℕ) where
  follow-same :
      (next : Scan → Buffers → Option (Result ExportParseError Scan)) (left left' : Buffers)
      (step : LineStep)
      → ((t : Scan) → next t left ≡ next t left')
      → follow parse_record parser limit next left step
        ≡ follow parse_record parser limit next left' step
  follow-same next left left' (fail e) nexts = refl
  follow-same next left left' (finish t) nexts = refl
  follow-same next left left' (continue t) nexts = nexts t

  follow-returns :
      (next : Scan → Buffers → Option (Result ExportParseError Scan)) (left : Buffers)
      (step : LineStep)
      → ((t : Scan) → next t left ≢ none)
      → follow parse_record parser limit next left step ≢ none
  follow-returns next left (fail e) nexts run = cc
  follow-returns next left (finish t) nexts run = cc
  follow-returns next left (continue t) nexts run = nexts t run

  scan_read-rest :
      (next : Scan → Buffers → Option (Result ExportParseError Scan)) (s : Scan) (line : List ℕ)
      (left left' : Buffers)
      → ((t : Scan) → next t left ≡ next t left')
      → scan_read parse_record parser limit next s (ok (line, left))
        ≡ scan_read parse_record parser limit next s (ok (line, left'))
  unfolding scan_read
  scan_read-rest next s [] left left' nexts = refl
  scan_read-rest next s (b ∷ line) left left' nexts =
      follow-same next left left' (on_line parse_record parser limit s (b ∷ line)) nexts

  scan_read-same :
      (next : Scan → Buffers → Option (Result ExportParseError Scan)) (s : Scan)
      (r r' : Result LineReadError (List ℕ × Buffers))
      → ((t : Scan) (left left' : Buffers)
          → All IsFull left
          → All IsFull left'
          → bytes_of left ≡ bytes_of left'
          → next t left ≡ next t left')
      → SameRead r r'
      → scan_read parse_record parser limit next s r ≡ scan_read parse_record parser limit next s r'
  scan_read-same next s (err e) (err e') nexts same =
      ap (λ x. scan_read parse_record parser limit next s (err x)) same
  scan_read-same next s (err e) (ok r) nexts same = absurd same
  scan_read-same next s (ok r) (err e) nexts same = absurd same
  scan_read-same next s (ok (line, left)) (ok (line', left')) nexts (e, rest, full, full') =
      scan_read-rest next s line left left' (λ t. nexts t left left' full full' rest)
      ∙ ap (λ l. scan_read parse_record parser limit next s (ok (l, left'))) e

  -- The scan of two inputs of the same bytes, cut into non-empty buffers in different ways and
  -- without an I/O error, gives the same result: the same count and visited records or the same error.
  pub scan_loop-buffers :
      (fuel : ℕ) (s : Scan) (buffers buffers' : Buffers)
      → All IsFull buffers
      → All IsFull buffers'
      → bytes_of buffers ≡ bytes_of buffers'
      → scan_loop parse_record parser limit fuel s buffers
        ≡ scan_loop parse_record parser limit fuel s buffers'
  unfolding scan_loop
  scan_loop-buffers zero s buffers buffers' full full' same = refl
  scan_loop-buffers (suc fuel) s buffers buffers' full full' same =
      scan_read-same (scan_loop parse_record parser limit fuel) s
        (read_line_bounded [] buffers parser.line_bytes)
        (read_line_bounded [] buffers' parser.line_bytes) (scan_loop-buffers fuel)
        (read_line-SameRead buffers buffers' parser.line_bytes full full' same)

  scan_read-returns :
      (next : Scan → Buffers → Option (Result ExportParseError Scan)) (s : Scan)
      (r : Result LineReadError (List ℕ × Buffers))
      → ((b : ℕ) (line : List ℕ) (left : Buffers)
          → r ≡ ok (b ∷ line, left)
          → (t : Scan) → next t left ≢ none)
      → scan_read parse_record parser limit next s r ≢ none
  unfolding scan_read
  scan_read-returns next s (err e) nexts run = cc
  scan_read-returns next s (ok ([], left)) nexts run = cc
  scan_read-returns next s (ok (b ∷ line, left)) nexts run =
      follow-returns next left (on_line parse_record parser limit s (b ∷ line))
        (nexts b line left refl) run

  -- With more fuel than bytes the scan of non-empty buffers gives a result.
  pub scan_loop-returns :
      (fuel : ℕ) (s : Scan) (buffers : Buffers)
      → All IsFull buffers
      → length (bytes_of buffers) < fuel
      → scan_loop parse_record parser limit fuel s buffers ≢ none
  unfolding scan_loop
  scan_loop-returns zero s buffers full h run = omega arith
  scan_loop-returns (suc fuel) s buffers full h run =
      scan_read-returns (scan_loop parse_record parser limit fuel) s
        (read_line_bounded [] buffers parser.line_bytes)
        (λ b line left read t.
          let (shorter, fulls) =
            read_line-shorter buffers left (b ∷ line) parser.line_bytes full read in
          scan_loop-returns fuel t left fulls (omega arith))
        run

  -- The ids that a daily export may have.
  abbrev pub IsId : ℕ → Type 0
  IsId id = 0 < id

  -- A scan that may go on: it counted the records it visited, within the parser's bounds.
  abbrev pub IsSound : Scan → Type 0
  IsSound s =
      (s.record_count ≡ length s.visited)
      × (s.record_count ≤ parser.records)
      × (s.decompressed_bytes ≤ parser.decompressed_bytes)
      × All IsId s.visited

  -- The end of a scan: within the bounds if the input was read to its end, or one record more at
  -- the most if the limit was reached.
  abbrev pub IsDone : Scan → Type 0
  IsDone s =
      (s.record_count ≡ length s.visited)
      × ((s.record_count ≤ parser.records)
          ⊎ (reaches limit s.record_count ≡ true) × (s.record_count ≤ parser.records + 1))
      × (s.decompressed_bytes ≤ parser.decompressed_bytes)
      × All IsId s.visited

  abbrev pub StepSound : LineStep → Type 0
  StepSound (continue s) = IsSound s
  StepSound (finish s) = IsDone s
  StepSound (fail e) = Unit

  on_line-StepSound :
      (s : Scan) (line : List ℕ)
      → parser.records < 2 ^ 64 - 1
      → IsSound s
      → StepSound (on_line parse_record parser limit s line)
  unfolding on_line on_record
  on_line-StepSound s line h (a, b, c, d) = ground arith

  follow-IsDone :
      (next : Scan → Buffers → Option (Result ExportParseError Scan)) (left : Buffers)
      (step : LineStep) (t : Scan)
      → ((s : Scan) → IsSound s → next s left ≡ some (ok t) → IsDone t)
      → StepSound step
      → follow parse_record parser limit next left step ≡ some (ok t)
      → IsDone t
  follow-IsDone next left (fail e) t nexts sound run = cc
  follow-IsDone next left (finish s) t nexts sound run = subst IsDone (some-ok refl run) sound
  follow-IsDone next left (continue s) t nexts sound run = nexts s sound run

  scan_read-IsDone :
      (next : Scan → Buffers → Option (Result ExportParseError Scan)) (s t : Scan)
      (r : Result LineReadError (List ℕ × Buffers))
      → parser.records < 2 ^ 64 - 1
      → IsSound s
      → ((s : Scan) (left : Buffers) → IsSound s → next s left ≡ some (ok t) → IsDone t)
      → scan_read parse_record parser limit next s r ≡ some (ok t)
      → IsDone t
  unfolding scan_read
  scan_read-IsDone next s t (err e) small sound nexts run = cc
  scan_read-IsDone next s t (ok ([], left)) small (a, b, c, d) nexts run =
      subst IsDone (some-ok refl run) (a, inl b, c, d)
  scan_read-IsDone next s t (ok (b ∷ line, left)) small sound nexts run =
      follow-IsDone next left (on_line parse_record parser limit s (b ∷ line)) t (λ u. nexts u left)
        (on_line-StepSound s (b ∷ line) small sound) run

  scan_loop-IsDone :
      (fuel : ℕ) (s t : Scan) (buffers : Buffers)
      → parser.records < 2 ^ 64 - 1
      → IsSound s
      → scan_loop parse_record parser limit fuel s buffers ≡ some (ok t)
      → IsDone t
  unfolding scan_loop
  scan_loop-IsDone zero s t buffers small sound run = cc
  scan_loop-IsDone (suc fuel) s t buffers small sound run =
      scan_read-IsDone (scan_loop parse_record parser limit fuel) s t
        (read_line_bounded [] buffers parser.line_bytes) small sound
        (λ u left. scan_loop-IsDone fuel u t left small) run

  -- A scan with more fuel than the input has bytes, of non-empty buffers without an I/O error and
  -- with fewer than 2^64 - 1 records allowed, returns; and where it returns a count, it is the number
  -- of visited records, none of which has the id 0, and it is within the parser's bound, or one above
  -- it where the limit was reached.
  pub scan_loop-total :
      (fuel : ℕ) (buffers : Buffers)
      → All IsFull buffers
      → length (bytes_of buffers) < fuel
      → parser.records < 2 ^ 64 - 1
      → (r : Result ExportParseError Scan) × (scan_loop parse_record parser limit fuel fresh buffers
          ≡ some r)
        × ((t : Scan) → r ≡ ok t → IsDone t)
  scan_loop-total fuel buffers full enough small =
      elim (Option-cases (scan_loop parse_record parser limit fuel fresh buffers)) [
        | inl run ↦ absurd (scan_loop-returns fuel fresh buffers full enough run)
        | inr (r, run) ↦ (
          r,
          run,
          λ t good.
              scan_loop-IsDone fuel fresh t buffers small (refl, omega arith, omega arith, tt)
                (run ∙ ap some good),
        )
      ]
