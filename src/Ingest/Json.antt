-- ===== src/Ingest/Json.antt =====
-- What apps/tmdb-ingest/src/jobs.rs uses of serde_json and of chrono's serde support, as a
-- parameter, and the readers and writers that the source's `serde` attributes ask for, over it.
use tmdb_mirror.Prelude.{
  ℕ, ◌^◌, ◌<◌, ◌≡◌, Bool, true, false, ◌&&◌, List, [], ◌∷◌, Option, none, some, if◌then◌else◌, any,
  all, Text, text_eq,
}

-- `Value::get` is `member`, and `names` are the keys of an object. The readers are those of serde
-- for the type in their name; `variant` reads the name of a variant without fields. An object
-- literal inserts its entries one by one into an empty map.
pub record Json (Value : Type 0) : Type 1 where
  pub member : Value → Text → Option Value
  pub names : Value → List Text
  pub is_null : Value → Bool
  pub read_u32 : Value → Option ℕ
  pub read_u64 : Value → Option ℕ
  pub read_bool : Value → Option Bool
  pub read_string : Value → Option Text
  pub variant : Value → Option Text
  pub read_array : Value → Option (List Value)
  pub read_date : Value → Option ℕ
  pub Map : Type 0
  pub empty : Map
  pub insert : Text → Value → Map → Map
  pub object : Map → Value
  pub null : Value
  pub number : ℕ → Value
  pub boolean : Bool → Value
  pub string : Text → Value
  pub array : List Value → Value
  pub date : ℕ → Value

-- The documented behaviour that the worker relies on, with `Value::is_object` given.
pub record IsJson {Value : Type 0} (is_object : Value → Bool) (j : Json Value) : Type 0 where
  pub is_object-object : (o : j.Map) → is_object (j.object o) ≡ true
  pub member-empty : (k : Text) → j.member (j.object j.empty) k ≡ none
  pub member-insert :
      (k l : Text) (v : Value) (o : j.Map)
      → j.member (j.object (j.insert k v o)) l
        ≡ (if text_eq l k then some v else j.member (j.object o) l)
  pub names-empty : j.names (j.object j.empty) ≡ []
  pub names-insert :
      (p : Text → Bool) (k : Text) (v : Value) (o : j.Map)
      → all p (j.names (j.object (j.insert k v o))) ≡ (p k && all p (j.names (j.object o)))
  pub read_u32-number : (n : ℕ) → n < 2 ^ 32 → j.read_u32 (j.number n) ≡ some n
  pub read_u64-number : (n : ℕ) → n < 2 ^ 64 → j.read_u64 (j.number n) ≡ some n
  pub read_bool-boolean : (b : Bool) → j.read_bool (j.boolean b) ≡ some b
  pub read_string-string : (s : Text) → j.read_string (j.string s) ≡ some s
  pub variant-string : (s : Text) → j.variant (j.string s) ≡ some s
  pub read_array-array : (vs : List Value) → j.read_array (j.array vs) ≡ some vs
  pub read_date-date : (d : ℕ) → j.read_date (j.date d) ≡ some d
  pub null-null : j.is_null j.null ≡ true
  pub null-date : (d : ℕ) → j.is_null (j.date d) ≡ false

infixl 5 ◌>>=◌
abbrev pub ◌>>=◌ {ℓ κ} : {A : Type ℓ} {B : Type κ} → Option A → (A → Option B) → Option B
none >>= f = none
some a >>= f = f a

infixl 5 ◌>>◌
abbrev pub ◌>>◌ {ℓ} : {B : Type ℓ} → Option (Unit {0}) → Option B → Option B
m >> k = m >>= λ done. k

abbrev pub read_all {ℓ} : {A V : Type ℓ} → (V → Option A) → List V → Option (List A)
read_all read [] = some []
read_all read (v ∷ vs) = do a ← read v; more ← read_all read vs; some (a ∷ more)

module _ {Value : Type 0} (j : Json Value) where
  -- `deny_unknown_fields`.
  abbrev pub only : List Text → Value → Option (Unit {0})
  only known v = if all (λ k. any (text_eq k) known) (j.names v) then some tt else none

  abbrev pub required_of {ℓ} : {A : Type ℓ} → (Value → Option A) → Option Value → Option A
  required_of read none = none
  required_of read (some m) = read m

  -- A field, one with `default`, and one of type `Option` with `default`.
  abbrev pub required {ℓ} : {A : Type ℓ} → Text → (Value → Option A) → Value → Option A
  required name read v = required_of read (j.member v name)

  abbrev pub defaulted_of {ℓ} : {A : Type ℓ} → A → (Value → Option A) → Option Value → Option A
  defaulted_of default read none = some default
  defaulted_of default read (some m) = read m

  abbrev pub defaulted {ℓ} : {A : Type ℓ} → A → Text → (Value → Option A) → Value → Option A
  defaulted default name read v = defaulted_of default read (j.member v name)

  abbrev pub nullable {ℓ} : {A : Type ℓ} → (Value → Option A) → Value → Option (Option A)
  nullable read v = if j.is_null v then some none else (read v >>= λ a. some (some a))
