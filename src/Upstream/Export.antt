-- ===== src/Upstream/Export.antt =====
-- crates/tmdb-upstream/src/parser.rs: bounded reading of daily exports and of change pages.
-- A reader is the list of the buffers that `fill_buf` gives, each its bytes or an I/O error; serde's
-- reading of a line, which yields the record's id, is a parameter.
pub mod Lines
pub mod Scanning
use tmdb_mirror.Prelude.{
  ℕ, zero, suc, ◌+◌, ◌-◌, ◌*◌, ◌^◌, ◌≡◌, Bool, true, false, not, ◌&&◌, ◌||◌, List, [], ◌∷◌, ◌++◌,
  Option, none, some, ltb, leb, ◌==◌, if◌then◌else◌, length, all, min, Result, ok, err, map_err,
}

pub data ExportParseError : Type 0 where
  invalid_bounds input_too_large invalid_page too_many_records io : ExportParseError
  line_too_long invalid_json invalid_id : ℕ → ExportParseError

pub data LineReadError : Type 0 where
  io too_long : LineReadError

pub record DailyExportParser : Type 0 where
  pub line_bytes : ℕ
  pub records : ℕ
  pub decompressed_bytes : ℕ

abbrev pub default_parser : DailyExportParser
default_parser = record {
  line_bytes = 2 ^ 20;
  records = 5000000;
  decompressed_bytes = 512 * 2 ^ 20;
}

unfoldable pub parser_try_new : ℕ → ℕ → ℕ → Result ExportParseError DailyExportParser
parser_try_new line records bytes =
    if (line == 0) || (records == 0) || (bytes == 0)
    then err invalid_bounds
    else ok (record { line_bytes = line; records = records; decompressed_bytes = bytes })

abbrev pub Buffers : Type 0
Buffers = List (Option (List ℕ))

-- The bytes up to the first line feed and with it, the bytes behind it, and whether there is one.
unfoldable pub split_line : List ℕ → List ℕ × List ℕ × Bool
split_line [] = ([], [], false)
split_line (b ∷ bytes) =
    let (taken, left, found) = split_line bytes in
    if b == 10 then (b ∷ [], bytes, true) else (b ∷ taken, left, found)

-- What `consume` leaves of a buffer.
abbrev pub put_back : List ℕ → Buffers → Buffers
put_back [] buffers = buffers
put_back (b ∷ bytes) buffers = some (b ∷ bytes) ∷ buffers

-- `read_line_bounded`: the line with what was read of it before, and the buffers left.
unfoldable pub read_line_bounded : List ℕ → Buffers → ℕ → Result LineReadError (List ℕ × Buffers)
read_line_bounded line [] max_line_bytes = ok (line, [])
read_line_bounded line (none ∷ buffers) max_line_bytes = err LineReadError.io
read_line_bounded line (some [] ∷ buffers) max_line_bytes = ok (line, some [] ∷ buffers)
read_line_bounded line (some (b ∷ bytes) ∷ buffers) max_line_bytes =
    let (taken, left, found) = split_line (b ∷ bytes) in
    let more = read_line_bounded (line ++ taken) buffers max_line_bytes in
    if ltb max_line_bytes (length line + length taken)
    then err too_long
    else if found
    then ok (line ++ taken, put_back left buffers)
    else more

-- `saturating_add` of 64-bit numbers.
abbrev pub saturating_add : ℕ → ℕ → ℕ
saturating_add a b = min (a + b) (2 ^ 64 - 1)

abbrev pub is_ascii_whitespace : ℕ → Bool
is_ascii_whitespace b = (b == 32) || (b == 9) || (b == 10) || (b == 12) || (b == 13)

-- The variables of the loop: lines, bytes and records so far, the ids that were visited (latest
-- first).
pub record Scan : Type 0 where
  pub line_number : ℕ
  pub decompressed_bytes : ℕ
  pub record_count : ℕ
  pub visited : List ℕ

abbrev pub fresh : Scan
fresh = record { line_number = 0; decompressed_bytes = 0; record_count = 0; visited = [] }

-- What a line comes to: go on, end with a count, or fail.
pub data LineStep : Type 0 where
  continue : Scan → LineStep
  finish : Scan → LineStep
  fail : ExportParseError → LineStep

abbrev pub reaches : Option ℕ → ℕ → Bool
reaches none count = false
reaches (some limit) count = leb limit count

module _ (parse_record : List ℕ → Option ℕ) (parser : DailyExportParser) (limit : Option ℕ) where
  -- A record with its id, in the state that has counted its line.
  unfoldable pub on_record : Scan → ℕ → LineStep
  on_record s id =
      let t = record s {
        visited = id ∷ s.visited;
        record_count = saturating_add s.record_count 1;
      } in
      if id == 0
      then fail (invalid_id s.line_number)
      else if reaches limit t.record_count
      then finish t
      else if ltb parser.records t.record_count
      then fail too_many_records
      else continue t

  abbrev pub parsed : Scan → Option ℕ → LineStep
  parsed s none = fail (invalid_json s.line_number)
  parsed s (some id) = on_record s id

  -- The body of the loop behind the reading of a non-empty line.
  unfoldable pub on_line : Scan → List ℕ → LineStep
  on_line s line =
      let t = record s {
        line_number = saturating_add s.line_number 1;
        decompressed_bytes = s.decompressed_bytes + length line;
      } in
      if leb (2 ^ 64) t.decompressed_bytes || ltb parser.decompressed_bytes t.decompressed_bytes
      then fail input_too_large
      else if ltb parser.line_bytes (length line)
      then fail (line_too_long t.line_number)
      else if all is_ascii_whitespace line
      then continue t
      else parsed t (parse_record line)

  abbrev pub line_error : Scan → LineReadError → ExportParseError
  line_error s LineReadError.io = ExportParseError.io
  line_error s too_long = line_too_long (saturating_add s.line_number 1)

  -- What a line comes to, with what the next round gives.
  abbrev pub follow :
      (Scan → Buffers → Option (Result ExportParseError Scan))
      → Buffers
      → LineStep
      → Option (Result ExportParseError Scan)
  follow next left (fail e) = some (err e)
  follow next left (finish t) = some (ok t)
  follow next left (continue t) = next t left

  -- The body of the loop, with what reading a line gave.
  unfoldable pub scan_read :
      (Scan → Buffers → Option (Result ExportParseError Scan))
      → Scan
      → Result LineReadError (List ℕ × Buffers)
      → Option (Result ExportParseError Scan)
  scan_read next s (err e) = some (err (line_error s e))
  scan_read next s (ok ([], left)) = some (ok s)
  scan_read next s (ok (b ∷ line, left)) = follow next left (on_line s (b ∷ line))

  -- `scan_reader_until`, on fuel: `none` means that it ran out. The count stands in the state.
  unfoldable pub scan_loop : ℕ → Scan → Buffers → Option (Result ExportParseError Scan)
  scan_loop zero s buffers = none
  scan_loop (suc fuel) s buffers =
      scan_read (scan_loop fuel) s (read_line_bounded [] buffers parser.line_bytes)

-- `parse_change_page` and `parse_change_history` behind serde: the page and the number of pages.
unfoldable pub check_page : Option (ℕ × ℕ) → Result ExportParseError (ℕ × ℕ)
check_page none = err (invalid_json 0)
check_page (some (page, total_pages)) =
    if (page == 0) || ltb total_pages page then err invalid_page else ok (page, total_pages)
