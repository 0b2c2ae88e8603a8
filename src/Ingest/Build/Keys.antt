-- ===== src/Ingest/Build/Keys.antt =====
-- apps/tmdb-ingest/src/jobs.rs: the keys of the jobs that the worker builds are valid for the queue.
use mathlib.Core.List.{reverse-append, reverse-cons, reverse-reverse}
use tmdb_mirror.Prelude.{
  ℕ, ◌+◌, ◌≤◌, ◌≡◌, refl, sym, ap, ◌∙◌, ◌≢◌, Bool, true, ◌&&◌, [], ◌∷◌, ◌++◌, reverse, leb, length,
  length-append, all, all-append, All, Text, is_whitespace, arith,
}
use tmdb_mirror.Prelude.Trim.{StartsClean}
use tmdb_mirror.Jobs.Model.Plain.{IsPlain}

-- A printable ASCII character, and one that is no space.
abbrev pub is_printable : ℕ → Bool
is_printable c = leb 32 c && leb c 126

abbrev pub is_solid : ℕ → Bool
is_solid c = leb 33 c && leb c 126

-- The end of a key: a printable text of bounded length that does not end with white space.
pub record IsTail (max_chars : ℕ) (s : Text) : Type 0 where
  pub nonempty : s ≢ []
  pub bounded : length s ≤ max_chars
  pub printable : all is_printable s ≡ true
  pub clean : StartsClean (reverse s)

all-reverse : (s : Text) → all is_solid s ≡ true → all is_solid (reverse s) ≡ true
all-reverse [] h = refl
all-reverse (c ∷ s) h =
    rw (reverse-cons c s) (ground (arith, all-append is_solid (reverse s) (c ∷ []), all-reverse s))

pub StartsClean-of_solid : (s : Text) → all is_solid s ≡ true → StartsClean s
unfolding is_whitespace
StartsClean-of_solid [] h = tt
StartsClean-of_solid (c ∷ s) h = ground arith

pub printable_of_solid : (s : Text) → all is_solid s ≡ true → all is_printable s ≡ true
printable_of_solid [] h = refl
printable_of_solid (c ∷ s) h = ground (arith, printable_of_solid s)

pub IsTail-of_solid :
    (n : ℕ) (s : Text) → s ≢ [] → length s ≤ n → all is_solid s ≡ true → IsTail n s
IsTail-of_solid n s h k solid = record {
  nonempty = h;
  bounded = k;
  printable = printable_of_solid s solid;
  clean = StartsClean-of_solid (reverse s) (all-reverse s solid);
}

StartsClean-append : (s t : Text) → s ≢ [] → StartsClean s → StartsClean (s ++ t)
StartsClean-append [] t h k = absurd (h refl)
StartsClean-append (c ∷ s) t h k = k

reverse-nonempty : (s : Text) → s ≢ [] → reverse s ≢ []
reverse-nonempty s h e = h (sym (reverse-reverse s) ∙ ap reverse e)

append-nonempty : (s t : Text) → t ≢ [] → s ++ t ≢ []
append-nonempty [] t h e = h e
append-nonempty (c ∷ s) t h e = cc

pub IsTail-append :
    (m n : ℕ) (s t : Text)
    → length s ≤ m
    → all is_printable s ≡ true
    → IsTail n t
    → IsTail (m + n) (s ++ t)
IsTail-append m n s t h k tail = record {
  nonempty = append-nonempty s t tail.nonempty;
  bounded = omega (arith, length-append s t, tail.bounded);
  printable = rw (all-append is_printable s t) (rw k tail.printable);
  clean =
      rw (reverse-append s t)
        (StartsClean-append (reverse t) (reverse s) (reverse-nonempty t tail.nonempty) tail.clean);
}

all_printable : (s : Text) → all is_printable s ≡ true → All (λ c. (32 ≤ c) × (c ≤ 126)) s
all_printable [] h = tt
all_printable (c ∷ s) h = ((ground arith, ground arith), all_printable s (ground arith))

pub IsPlain-of_IsTail :
    (n max_chars : ℕ) (s : Text) → n ≤ max_chars → StartsClean s → IsTail n s → IsPlain max_chars s
IsPlain-of_IsTail n max_chars s h k tail = record {
  nonempty = tail.nonempty;
  bounded = omega (arith, tail.bounded);
  printable = all_printable s tail.printable;
  trimmed = (k, tail.clean);
}
