-- ===== src/Tests/Upstream.antt =====
-- The client of the upstream services at concrete inputs.
use tmdb_mirror.Prelude.{
  ◌⊎◌, ℕ, ◌*◌, ◌+◌, ◌≤◌, ◌<◌, ◌≡◌, refl, true, List, [], ◌∷◌, none, some, Option, codes, ok, arith,
  length, Result, suc, min, ◌-◌, ◌==◌, if◌then◌else◌,
}
use tmdb_mirror.Upstream.Policy.{
  backoff, conservative, RequestGate, gate_new, rate_limit_default, nonzero_or_min, acquire,
  add_or_now, checked_mul,
}
use tmdb_mirror.Upstream.Policy.Backoff.{HasOrder, backoff_lem}
use tmdb_mirror.Upstream.Policy.Spacing.{
  Passing, starts, started, starts-limited, slot_interval_lem,
}
use tmdb_mirror.Upstream.Client.{
  Attempt, request_bytes, request_loop, attempt_step, after_send, after_response, classify_response,
  parse_retry_after, parse_u64, digits_value, read_bounded, read_from, trawl_decision,
}
use tmdb_mirror.Upstream.Client.Retries.{Ended, request_bytes_lem}
use tmdb_mirror.Upstream.Export.{
  Buffers, DailyExportParser, Scan, ExportParseError, scan_loop, fresh, read_line_bounded,
}
use tmdb_mirror.Upstream.Export.Lines.{SameRead, read_line-SameRead}
use tmdb_mirror.Upstream.Export.Scanning.{IsDone, scan_loop-buffers, scan_loop-total}

conservative-HasOrder : HasOrder conservative
unfolding conservative rate_limit_default nonzero_or_min
conservative-HasOrder = record {
  ordered = omega arith;
  positive = omega arith;
  representable = omega arith;
}

-- Delays in milliseconds: a quarter of a second doubles up to fifteen.
delays :
    (backoff conservative 1 ≡ 250000000)
    × (backoff conservative 3 ≡ 1000000000)
    × (backoff conservative 8 ≡ 15000000000)
unfolding conservative rate_limit_default nonzero_or_min backoff checked_mul
delays = (refl, refl, refl)

-- A rate limit with its delay, a server's error and then an answer.
abbrev network : ℕ → Attempt
network n =
    if n == 1
    then record {
      gate_open = true;
      response = some (record { status = 429; retry_after = some (codes "60"); chunks = [] });
    }
    else if n == 2
    then record {
      gate_open = true;
      response = some (record { status = 503; retry_after = none; chunks = [] });
    }
    else record {
      gate_open = true;
      response =
          some (record { status = 200; retry_after = none; chunks = some (codes "{}") ∷ [] });
    }

abbrev no_date : List ℕ → Option ℕ
no_date value = none

-- The sleeps are fifteen seconds, where the server asked for sixty, and half a second.
requests :
    request_bytes no_date conservative none network
    ≡ (ok (codes "{}"), 15000000000 ∷ 500000000 ∷ [])
unfolding conservative rate_limit_default nonzero_or_min backoff checked_mul request_bytes
    request_loop attempt_step after_send after_response classify_response parse_retry_after
    parse_u64 digits_value read_bounded read_from trawl_decision
requests = refl

request_bytes_lem_example :
    let (r, sleeps) = request_bytes no_date conservative none network in
    Ended no_date conservative none 1 network r sleeps
    × ((body : List ℕ) → r ≡ ok body → length body ≤ conservative.max_response_bytes)
request_bytes_lem_example =
    request_bytes_lem no_date conservative none network
      (unfold conservative nonzero_or_min in omega arith)

backoff_lem_example :
    ((a : ℕ)
      → (conservative.backoff_base ≤ backoff conservative a)
        × (backoff conservative a ≤ conservative.backoff_max))
    × (backoff conservative 1 ≡ conservative.backoff_base)
    × ((n : ℕ)
        → n < 7
        → backoff conservative (suc (suc n))
          ≡ min (2 * backoff conservative (suc n)) conservative.backoff_max)
    × ((a : ℕ) → 8 ≤ a → backoff conservative a ≡ backoff conservative 8)
backoff_lem_example = backoff_lem conservative conservative-HasOrder

abbrev gate : RequestGate
gate = record { next_slot = 100; slot_interval = 25 }

-- The first of three requests wakes up late, behind the second; the clock steps back for the third.
abbrev passings : List Passing
passings =
    record { now = 100; now' = 100; late = 40 }
    ∷ record { now = 101; now' = 101; late = 0 }
    ∷ record { now = 90; now' = 102; late = 3 }
    ∷ []

started_two : started 120 140 (starts 1000 passings gate) ≡ 2
unfolding started acquire add_or_now
started_two = refl

starts-limited_example :
    (started 120 140 (starts 1000 passings gate) ≡ 0)
    ⊎ (100 + started 120 140 (starts 1000 passings gate) * 25 ≤ 140 + 25)
      × (120 + started 120 140 (starts 1000 passings gate) * 25 ≤ 140 + 40 + 25)
unfolding acquire add_or_now
starts-limited_example =
    starts-limited 1000 120 140 40 passings gate (omega arith, (omega arith, (omega arith, tt)))
      (omega arith, (omega arith, (omega arith, tt)))

slot_interval_lem_example :
    let gate = gate_new (record { requests_per_second = 35; max_concurrency = 20 }) 0 in
    (25000000 ≤ gate.slot_interval)
    × (35 * gate.slot_interval ≤ 1000000000)
    × (1000000000 < 35 * gate.slot_interval + 35)
slot_interval_lem_example = slot_interval_lem 35 20 0 (omega arith) (omega arith)

-- A record is its first digit.
abbrev parse_record : List ℕ → Option ℕ
parse_record [] = none
parse_record (c ∷ line) = some (c - b'0')

abbrev parser : DailyExportParser
parser = record { line_bytes = 4; records = 2; decompressed_bytes = 20 }

abbrev whole : Buffers
whole = some (codes "5\n \n7\n") ∷ []

abbrev cut : Buffers
cut = some (codes "5") ∷ some (codes "\n ") ∷ some (codes "\n7\n") ∷ []

read_line-SameRead_example : SameRead (read_line_bounded [] whole 4) (read_line_bounded [] cut 4)
read_line-SameRead_example = read_line-SameRead whole cut 4 (tt, tt) (tt, (tt, (tt, tt))) refl

scan_loop-buffers_example :
    scan_loop parse_record parser none 9 fresh whole
    ≡ scan_loop parse_record parser none 9 fresh cut
scan_loop-buffers_example =
    scan_loop-buffers parse_record parser none 9 fresh whole cut (tt, tt) (tt, (tt, (tt, tt))) refl

scan_loop-total_example :
    (r : Result ExportParseError Scan) × (scan_loop parse_record parser none 9 fresh cut ≡ some r)
    × ((t : Scan) → r ≡ ok t → IsDone parse_record parser none t)
scan_loop-total_example =
    scan_loop-total parse_record parser none 9 cut (tt, (tt, (tt, tt))) (omega arith) (omega arith)
