-- ===== src/Prelude/Trim.antt =====
-- What `trim` leaves alone: the texts that neither begin nor end with white space.
use Prim.Native.Nat.{◌≤◌}
use mathlib.Core.Path.{◌≡◌, refl, sym, ap, ◌∙◌}
use mathlib.Core.Logic.{◌↔◌}
use mathlib.Core.Bool.{false}
use mathlib.Core.List.{[], ◌∷◌, reverse, reverse-reverse, reverse-cons}
use native.Mathlib.Omega.{arith}
use tmdb_mirror.Prelude.Lists.{length, length-append}
use tmdb_mirror.Prelude.Chars.{Text, is_whitespace, trim_start, trim_end, trim}

-- The first character is no white space.
abbrev pub StartsClean : Text → Type 0
StartsClean [] = Unit
StartsClean (c ∷ s) = is_whitespace c ≡ false

abbrev pub IsTrimmed : Text → Type 0
IsTrimmed s = StartsClean s × StartsClean (reverse s)

length-reverse : (s : Text) → length (reverse s) ≡ length s
length-reverse [] = refl
length-reverse (c ∷ s) =
    rw (reverse-cons c s) (omega (arith, length-append (reverse s) (c ∷ []), length-reverse s))

length-trim_start : (s : Text) → length (trim_start s) ≤ length s
unfolding trim_start
length-trim_start [] = omega arith
length-trim_start (c ∷ s) = ground (arith, length-trim_start s)

length-trim_end : (s : Text) → length (trim_end s) ≤ length s
unfolding trim_end
length-trim_end s = omega (
  arith,
  length-reverse (trim_start (reverse s)),
  length-trim_start (reverse s),
  length-reverse s,
)

trim_start_of_StartsClean : (s : Text) → StartsClean s → trim_start s ≡ s
unfolding trim_start
trim_start_of_StartsClean [] h = refl
trim_start_of_StartsClean (c ∷ s) h = rw h

StartsClean-of_length : (s : Text) → length s ≤ length (trim_start s) → StartsClean s
unfolding trim_start
StartsClean-of_length [] h = tt
StartsClean-of_length (c ∷ s) h = ground (arith, length-trim_start s)

-- The texts that `trim` returns unchanged.
pub trim-eq_iff : (s : Text) → (trim s ≡ s) ↔ IsTrimmed s
unfolding trim
trim-eq_iff s = (left, right)
  where
    left : trim_end (trim_start s) ≡ s → IsTrimmed s
    left e =
        let clean =
          StartsClean-of_length s
            (omega (arith, ap length e, length-trim_end (trim_start s), length-trim_start s)) in
        let e' = ap trim_end (sym (trim_start_of_StartsClean s clean)) ∙ e in
        (
          clean,
          StartsClean-of_length (reverse s) (
              omega
                (arith, ap length e', length-reverse s, length-reverse (trim_start (reverse s)))),
        )

    right : IsTrimmed s → trim_end (trim_start s) ≡ s
    right (a, b) =
        rw (trim_start_of_StartsClean s a)
          (rw (trim_start_of_StartsClean (reverse s) b) (reverse-reverse s))
