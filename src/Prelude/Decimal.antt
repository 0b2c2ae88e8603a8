-- ===== src/Prelude/Decimal.antt =====
-- Numbers as decimal text: Rust's `{}` and `{:02}`, and reading one back.
use Prim.Native.Nat.{ℕ, zero, suc, ◌+◌, ◌-◌, ◌*◌, ◌/◌, ◌%◌, ◌<◌, ◌≤◌, ◌^◌}
use mathlib.Core.Path.{◌≡◌, refl, sym, ap, ◌∙◌}
use mathlib.Core.Logic.{◌≢◌}
use mathlib.Core.Bool.{Bool, true, false, ◌&&◌}
use mathlib.Core.List.{[], ◌∷◌, ◌++◌}
use native.Mathlib.Omega.{arith}
use native.Mathlib.Nat.{div-add-mod', mod-lt, pow-suc}
use tmdb_mirror.Prelude.Tests.{ltb, leb, if◌then◌else◌}
use tmdb_mirror.Prelude.Chars.{Text}
use tmdb_mirror.Prelude.Lists.{all, length}

-- The digits of a number before a text; the fuel exceeds the number, hence its digits.
unfoldable pub show_onto : ℕ → ℕ → Text → Text
show_onto zero n text = text
show_onto (suc fuel) n text =
    let more = show_onto fuel (n / 10) ((b'0' + n % 10) ∷ text) in
    if ltb n 10 then (b'0' + n) ∷ text else more

unfoldable pub show_number : ℕ → Text
unfolding show_onto
show_number n = show_onto (suc n) n []

-- `{:02}`.
unfoldable pub show_padded : ℕ → Text
show_padded n = if ltb n 10 then b'0' ∷ show_number n else show_number n

abbrev pub is_digit : ℕ → Bool
is_digit c = leb b'0' c && leb c b'9'

-- The number at the head of a text, added to one read before, and what stands behind it.
unfoldable pub read_onto : ℕ → Text → ℕ × Text
read_onto n [] = (n, [])
read_onto n (c ∷ text) =
    let more = read_onto (n * 10 + (c - b'0')) text in if is_digit c then more else (n, c ∷ text)

abbrev pub read_number : Text → ℕ × Text
read_number text = read_onto 0 text

read_onto-show_onto :
    (fuel n : ℕ) (text : Text) → n < fuel → read_onto 0 (show_onto fuel n text) ≡ read_onto n text
unfolding read_onto show_onto
read_onto-show_onto zero n text h = absurd (omega arith)
read_onto-show_onto (suc fuel) n text h =
    let digit = mod-lt n {m = 10} (omega arith) in
    let whole = div-add-mod' n 10 in
    grind (arith, digit, whole, read_onto-show_onto fuel (n / 10) ((b'0' + n % 10) ∷ text))

show_onto-append :
    (fuel n : ℕ) (text more : Text)
    → show_onto fuel n (text ++ more) ≡ show_onto fuel n text ++ more
unfolding show_onto
show_onto-append zero n text more = refl
show_onto-append (suc fuel) n text more =
    ground (arith, show_onto-append fuel (n / 10) ((b'0' + n % 10) ∷ text) more)

-- A text that does not go on with a digit.
abbrev pub IsBreak : Text → Type 0
IsBreak [] = Unit
IsBreak (c ∷ text) = is_digit c ≡ false

read_onto-break : (n : ℕ) (text : Text) → IsBreak text → read_onto n text ≡ (n, text)
unfolding read_onto
read_onto-break n [] h = refl
read_onto-break n (c ∷ text) h = ground arith

pub read_number-show_number :
    (n : ℕ) (text : Text) → IsBreak text → read_number (show_number n ++ text) ≡ (n, text)
unfolding show_number
read_number-show_number n text h =
    ap (read_onto 0) (sym (show_onto-append (suc n) n [] text))
    ∙ read_onto-show_onto (suc n) n text (omega arith)
    ∙ read_onto-break n text h

pub read_number-show_padded :
    (n : ℕ) (text : Text) → IsBreak text → read_number (show_padded n ++ text) ≡ (n, text)
unfolding show_padded read_onto
read_number-show_padded n text h = ground (arith, read_number-show_number n text h)

all-show_onto :
    (p : ℕ → Bool) (fuel n : ℕ) (text : Text)
    → ((d : ℕ) → d < 10 → p (b'0' + d) ≡ true)
    → all p text ≡ true
    → all p (show_onto fuel n text) ≡ true
unfolding show_onto
all-show_onto p zero n text h k = k
all-show_onto p (suc fuel) n text h k =
    let digit = mod-lt n {m = 10} (omega arith) in
    let last = h (n % 10) digit in
    ground (arith, last, h n, all-show_onto p fuel (n / 10) ((b'0' + n % 10) ∷ text) h)

-- Whatever holds of the digits holds of a number's text.
pub all-show_number :
    (p : ℕ → Bool) (n : ℕ) → ((d : ℕ) → d < 10 → p (b'0' + d) ≡ true) → all p (show_number n) ≡ true
unfolding show_number
all-show_number p n h = all-show_onto p (suc n) n [] h refl

pub all-show_padded :
    (p : ℕ → Bool) (n : ℕ) → ((d : ℕ) → d < 10 → p (b'0' + d) ≡ true) → all p (show_padded n) ≡ true
unfolding show_padded
all-show_padded p n h = ground (arith, h 0, all-show_number p n h)

length-show_onto :
    (fuel n k : ℕ) (text : Text)
    → n < 10 ^ suc k
    → length (show_onto fuel n text) ≤ suc k + length text
unfolding show_onto
length-show_onto zero n k text h = omega arith
length-show_onto (suc fuel) n zero text h = ground arith
length-show_onto (suc fuel) n (suc k) text h = ground (
  arith,
  length-show_onto fuel (n / 10) k ((b'0' + n % 10) ∷ text) (omega (arith, pow-suc 10 (suc k))),
)

-- A number below a power of ten has at most that many digits.
pub length-show_number : (n k : ℕ) → n < 10 ^ suc k → length (show_number n) ≤ suc k
unfolding show_number
length-show_number n k h = omega (arith, length-show_onto (suc n) n k [] h)

show_onto-nonempty : (fuel n : ℕ) (text : Text) → n < fuel → show_onto fuel n text ≢ []
unfolding show_onto
show_onto-nonempty zero n text h = absurd (omega arith)
show_onto-nonempty (suc fuel) n text h =
    ground (arith, show_onto-nonempty fuel (n / 10) ((b'0' + n % 10) ∷ text))

pub show_number-nonempty : (n : ℕ) → show_number n ≢ []
unfolding show_number
show_number-nonempty n = show_onto-nonempty (suc n) n [] (omega arith)
