-- ===== src/Prelude/Exec.antt =====
-- Code that indexes slices and loops: a run returns, panics on an index out of bounds, or, in the
-- model, runs out of the fuel that bounds a loop.
use Prim.Native.Nat.{ℕ, zero, suc, ◌+◌, ◌-◌, ◌*◌, ◌<◌}
use mathlib.Core.Path.{◌≡◌, ap}
use mathlib.Core.Bool.{◌&&◌}
use mathlib.Core.List.{List, [], ◌∷◌, ◌++◌}
use native.Mathlib.Nat.{suc-add}
use native.Mathlib.Omega.{arith}
use tmdb_mirror.Prelude.Tests.{ltb, leb, if◌then◌else◌}
use tmdb_mirror.Prelude.Lists.{length, take, drop, All}

pub data Exec {ℓ} (A : Type ℓ) : Type ℓ where
  returned : A → Exec A
  panicked : Exec A
  out_of_fuel : Exec A

infixl 5 ◌>>=◌
abbrev pub ◌>>=◌ {ℓ κ} : {Val : Type ℓ} {Out : Type κ} → Exec Val → (Val → Exec Out) → Exec Out
returned v >>= rest = rest v
panicked >>= rest = panicked
out_of_fuel >>= rest = out_of_fuel

abbrev pub get_or {ℓ} : {A : Type ℓ} → List A → ℕ → A → A
get_or [] i d = d
get_or (x ∷ xs) zero d = x
get_or (x ∷ xs) (suc i) d = get_or xs i d

-- `body[i]`.
abbrev pub at : List ℕ → ℕ → Exec ℕ
at body i = if ltb i (length body) then returned (get_or body i 0) else panicked

-- `&body[start..end]`.
abbrev pub slice : List ℕ → ℕ → ℕ → Exec (List ℕ)
slice body start end =
    if leb start end && leb end (length body)
    then returned (take (end - start) (drop start body))
    else panicked

-- `u16::from_be_bytes` and its kin, at a position of a slice.
abbrev pub be16 : List ℕ → ℕ → Exec ℕ
be16 body i = do a ← at body i; b ← at body (i + 1); returned (a * 256 + b)

abbrev pub le16 : List ℕ → ℕ → Exec ℕ
le16 body i = do a ← at body i; b ← at body (i + 1); returned (a + b * 256)

abbrev pub be32 : List ℕ → ℕ → Exec ℕ
be32 body i = do a ← be16 body i; b ← be16 body (i + 2); returned (a * 65536 + b)

abbrev pub le32 : List ℕ → ℕ → Exec ℕ
le32 body i = do a ← le16 body i; b ← le16 body (i + 2); returned (a + b * 65536)

pub get_or-append {ℓ} :
    {A : Type ℓ} (xs ys : List A) (k : ℕ) (d : A)
    → get_or (xs ++ ys) (length xs + k) d ≡ get_or ys k d
get_or-append [] ys k d = ap (λ i. get_or ys i d) (omega arith)
get_or-append (x ∷ xs) ys k d = rw suc-add (get_or-append xs ys k d)

-- The run returns, and its value satisfies `P`.
abbrev pub Returns {ℓ} : {A : Type ℓ} → (A → Type 0) → Exec A → Type 0
Returns P (returned a) = P a
Returns P panicked = ⊥
Returns P out_of_fuel = ⊥

abbrev pub IsBytes : List ℕ → Type 0
IsBytes = All (λ b. b < 256)

pub get_or-byte : (body : List ℕ) (i : ℕ) → IsBytes body → get_or body i 0 < 256
get_or-byte [] i h = omega arith
get_or-byte (b ∷ body) zero h = h.0
get_or-byte (b ∷ body) (suc i) h = get_or-byte body i h.1

pub Returns->>= {ℓ κ} :
    {A : Type ℓ} {B : Type κ} (P : A → Type 0) (Q : B → Type 0) (m : Exec A) (f : A → Exec B)
    → Returns P m
    → ((a : A) → P a → Returns Q (f a))
    → Returns Q (m >>= f)
Returns->>= P Q (returned a) f h k = k a h
Returns->>= P Q panicked f h k = h
Returns->>= P Q out_of_fuel f h k = h

pub Returns-map {ℓ} :
    {A : Type ℓ} (P Q : A → Type 0) (m : Exec A) → ((a : A) → P a → Q a) → Returns P m → Returns Q m
Returns-map P Q (returned a) k h = k a h
Returns-map P Q panicked k h = h
Returns-map P Q out_of_fuel k h = h
