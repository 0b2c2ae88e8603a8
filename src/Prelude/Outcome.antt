-- ===== src/Prelude/Outcome.antt =====
-- `Result<A, E>` of the source, with `?` as bind.
use mathlib.Core.Path.{◌≡◌, refl}
use mathlib.Core.Bool.{Bool, true, false}

pub data Result {ℓ κ} (Err : Type κ) (Val : Type ℓ) : Type (ℓ ⊔ κ) where
  err : Err → Result Err Val
  ok : Val → Result Err Val

module _ {ℓ κ μ} {Err : Type μ} {Val : Type ℓ} {Out : Type κ} where
  infixl 5 ◌>>=◌
  -- `?`: the rest of the body runs on a value.
  abbrev pub ◌>>=◌ : Result Err Val → (Val → Result Err Out) → Result Err Out
  err x >>= rest = err x
  ok v >>= rest = rest v

  -- A body that returns a value has one from its first step.
  pub ok_of_bind :
      (first : Result Err Val) (rest : Val → Result Err Out) {w : Out}
      → (first >>= rest) ≡ ok w
      → (v : Val) × (first ≡ ok v) × (rest v ≡ ok w)
  ok_of_bind (err x) rest q = cc
  ok_of_bind (ok v) rest q = (v, refl, q)

infixl 5 ◌>>◌
abbrev pub ◌>>◌ {ℓ μ} :
    {Err : Type μ} {Out : Type ℓ} → Result Err (Unit {0}) → Result Err Out → Result Err Out
check >> rest = check >>= λ done. rest

-- `if test { return Err(x) }`.
abbrev pub reject_if {μ} : {Err : Type μ} → Bool → Err → Result Err (Unit {0})
reject_if false x = ok tt
reject_if true x = err x

-- `Result::map_err`.
abbrev pub map_err {ℓ κ μ} :
    {Low : Type μ} {High : Type κ} {Val : Type ℓ} → (Low → High) → Result Low Val → Result High Val
map_err lift (err x) = err (lift x)
map_err lift (ok v) = ok v

pub ok_of_map_err {ℓ κ μ} :
    {Low : Type μ} {High : Type κ} {Val : Type ℓ} (lift : Low → High) (r : Result Low Val) {v : Val}
    → map_err lift r ≡ ok v
    → r ≡ ok v
ok_of_map_err lift (err x) h = cc
ok_of_map_err lift (ok w) h = cc
