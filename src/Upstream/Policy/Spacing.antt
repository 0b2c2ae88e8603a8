-- ===== src/Upstream/Policy/Spacing.antt =====
-- How the gate spaces requests, whoever asks and whenever.
use tmdb_mirror.Prelude.{
  ℕ, suc, ◌+◌, ◌*◌, ◌≤◌, ◌<◌, ◌≡◌, refl, ◌⊎◌, inl, inr, max, leb, if◌then◌else◌, Bool-cases, arith,
  List, [], ◌∷◌, All, ◌&&◌,
}
use native.Mathlib.Nat.{div-add-mod, mod-lt}
use tmdb_mirror.Upstream.Policy.{RequestGate, gate_new, acquire}

-- One passing of the gate: the clock at `acquire`, its second reading, and how much later than its
-- slot the request starts, as the timer, the lock and the runtime decide.
pub record Passing : Type 0 where
  pub now : ℕ
  pub now' : ℕ
  pub late : ℕ

-- The slot that a request is given, and when it starts.
pub record Start : Type 0 where
  pub slot : ℕ
  pub at : ℕ

-- How many requests start from one instant to another, both included.
unfoldable pub started : ℕ → ℕ → List Start → ℕ
started from until [] = 0
started from until (s ∷ starts) =
    let others = started from until starts in
    if leb from s.at && leb s.at until then suc others else others

module _ (instant_bound : ℕ) where
  -- The requests in the order in which they take the lock. The sleep takes at least the delay, so a
  -- request does not start before its slot, but may start after the next one's.
  abbrev pub starts : List Passing → RequestGate → List Start
  starts [] gate = []
  starts (q ∷ rest) gate =
      let (next, delay) = acquire instant_bound q.now q.now' gate in
      record { slot = q.now + delay; at = q.now + delay + q.late } ∷ starts rest next

  -- The instants stay below the bound, so that no addition is refused.
  abbrev pub Fits : List Passing → RequestGate → Type 0
  Fits [] gate = Unit
  Fits (q ∷ rest) gate =
      (max gate.next_slot q.now + gate.slot_interval < instant_bound)
      × Fits rest (acquire instant_bound q.now q.now' gate).0

  acquire_lem :
      (now now' : ℕ) (gate : RequestGate)
      → max gate.next_slot now + gate.slot_interval < instant_bound
      → (gate.next_slot ≤ now + (acquire instant_bound now now' gate).1)
        × ((acquire instant_bound now now' gate).0.next_slot
            ≡ now + (acquire instant_bound now now' gate).1 + gate.slot_interval)
        × ((acquire instant_bound now now' gate).0.slot_interval ≡ gate.slot_interval)
  unfolding acquire
  acquire_lem now now' gate h = ground arith

  module _ (from until lateness : ℕ) where
    -- None starts, or as many intervals as requests start, less one, fit between the gate's slot and
    -- the end, and between the two instants with the lateness added.
    abbrev Limited : RequestGate → ℕ → Type 0
    Limited gate n =
        (n ≡ 0)
        ⊎ (gate.next_slot + n * gate.slot_interval ≤ until + gate.slot_interval)
          × (from + n * gate.slot_interval ≤ until + lateness + gate.slot_interval)

    Limited-suc :
        (slot late n : ℕ) (gate next : RequestGate)
        → gate.next_slot ≤ slot
        → next.next_slot ≡ slot + gate.slot_interval
        → next.slot_interval ≡ gate.slot_interval
        → late ≤ lateness
        → Limited next n
        → Limited gate (if leb from (slot + late) && leb (slot + late) until then suc n else n)
    Limited-suc slot late n gate next first then_at interval bound h =
        elim (Bool-cases (leb from (slot + late) && leb (slot + late) until)) [
          | inl k ↦ rw k (inr (counted h (ground arith) (ground arith)))
          | inr k ↦ rw k (skipped h)
        ]
      where
        counted :
            Limited next n
            → from ≤ slot + late
            → slot + late ≤ until
            → (gate.next_slot + suc n * gate.slot_interval ≤ until + gate.slot_interval)
              × (from + suc n * gate.slot_interval ≤ until + lateness + gate.slot_interval)
        counted (inl e) a b = rw e (ground arith, ground arith)
        counted (inr (h, k)) a b =
            (grind (arith, first, then_at, interval, h), grind (arith, then_at, interval, h, bound))

        skipped : Limited next n → Limited gate n
        skipped (inl e) = inl e
        skipped (inr (h, k)) =
            inr (grind (arith, first, then_at, interval, h), grind (arith, interval, k))

    -- If no request starts later than its slot by more than `lateness`, then in any span of time and
    -- whatever the clock shows, at most one request more starts than slot intervals fit into the span
    -- and `lateness` together; and up to its end at most one more than intervals fit after the gate's
    -- slot. The instants stay within the platform's.
    pub starts-limited :
        (passings : List Passing) (gate : RequestGate)
        → Fits passings gate
        → All (λ (q : Passing). q.late ≤ lateness) passings
        → (started from until (starts passings gate) ≡ 0)
          ⊎ (gate.next_slot + started from until (starts passings gate) * gate.slot_interval
              ≤ until + gate.slot_interval)
            × (from + started from until (starts passings gate) * gate.slot_interval
                ≤ until + lateness + gate.slot_interval)
    unfolding started
    starts-limited [] gate f l = inl refl
    starts-limited (q ∷ rest) gate (f, fs) (l, ls) =
        let next = (acquire instant_bound q.now q.now' gate).0 in
        let (first, then_at, interval) = acquire_lem q.now q.now' gate f in
        Limited-suc (q.now + (acquire instant_bound q.now q.now' gate).1) q.late
          (started from until (starts rest next)) gate next first then_at interval l
          (starts-limited rest next fs ls)

-- The slot interval of a validated policy covers at least a fortieth of a second, and `rate`
-- intervals fall short of a second by less than `rate` nanoseconds.
pub slot_interval_lem :
    (rate concurrency now : ℕ)
    → 0 < rate
    → rate ≤ 40
    → let gate =
        gate_new (record { requests_per_second = rate; max_concurrency = concurrency }) now in
      (25000000 ≤ gate.slot_interval)
      × (rate * gate.slot_interval ≤ 1000000000)
      × (1000000000 < rate * gate.slot_interval + rate)
unfolding gate_new
slot_interval_lem rate concurrency now h k =
    grind (arith, div-add-mod 1000000000 rate, mod-lt 1000000000 {m = rate} h)
