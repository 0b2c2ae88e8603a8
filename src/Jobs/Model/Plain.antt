-- ===== src/Jobs/Model/Plain.antt =====
-- What `validate_text` of crates/tmdb-jobs/src/model.rs accepts.
use tmdb_mirror.Prelude.{
  ℕ, ◌≤◌, ◌≡◌, refl, sym, ◌≢◌, ◌↔◌, inl, inr, true, false, [], ◌∷◌, length, all, any, All, Text,
  text_eq, text_eq_iff, is_ascii, is_control, trim, ok, err, arith, Bool-cases,
}
use tmdb_mirror.Prelude.Trim.{IsTrimmed, trim-eq_iff}
use tmdb_mirror.Jobs.Error.{ValidationError}
use tmdb_mirror.Jobs.Model.{is_empty, is_bad_text, validate_text}

-- A non-empty text of printable ASCII of at most `max_chars` characters, with no white space at
-- either end.
pub record IsPlain (max_chars : ℕ) (s : Text) : Type 0 where
  pub nonempty : s ≢ []
  pub bounded : length s ≤ max_chars
  pub printable : All (λ c. (32 ≤ c) × (c ≤ 126)) s
  pub trimmed : IsTrimmed s

printable_of_tests :
    (s : Text)
    → all is_ascii s ≡ true
    → any is_control s ≡ false
    → All (λ c. (32 ≤ c) × (c ≤ 126)) s
unfolding is_ascii is_control
printable_of_tests [] h k = tt
printable_of_tests (c ∷ s) h k =
    ((ground arith, ground arith), printable_of_tests s (ground arith) (ground arith))

ascii_of_printable : (s : Text) → All (λ c. (32 ≤ c) × (c ≤ 126)) s → all is_ascii s ≡ true
unfolding is_ascii
ascii_of_printable [] h = refl
ascii_of_printable (c ∷ s) h = ground (arith, ascii_of_printable s h.1)

no_control_of_printable : (s : Text) → All (λ c. (32 ≤ c) × (c ≤ 126)) s → any is_control s ≡ false
unfolding is_control
no_control_of_printable [] h = refl
no_control_of_printable (c ∷ s) h = ground (arith, no_control_of_printable s h.1)

nonempty_iff : (s : Text) → (is_empty s ≡ false) ↔ (s ≢ [])
nonempty_iff [] = ground arith
nonempty_iff (c ∷ s) = ground arith

trim_test : (s : Text) → text_eq s (trim s) ≡ true → trim s ≡ s
trim_test s h = sym ((text_eq_iff s (trim s)).0 h)

is_bad_text_iff :
    (s : Text) (max_chars : ℕ) → (is_bad_text s max_chars ≡ false) ↔ IsPlain max_chars s
unfolding is_bad_text
is_bad_text_iff s max_chars = (left, right)
  where
    left : is_bad_text s max_chars ≡ false → IsPlain max_chars s
    left h =
        let same = trim_test s (ground arith) in
        record {
          nonempty = (nonempty_iff s).0 (ground (arith, same));
          bounded = ground arith;
          printable = printable_of_tests s (ground arith) (ground arith);
          trimmed = (trim-eq_iff s).0 same;
        }

    right : IsPlain max_chars s → is_bad_text s max_chars ≡ false
    right p =
        let same = (trim-eq_iff s).1 p.trimmed in
        ground (
          arith,
          same,
          (nonempty_iff s).1 p.nonempty,
          ascii_of_printable s p.printable,
          no_control_of_printable s p.printable,
          (text_eq_iff s (trim s)).1 (sym same),
        )

-- `validate_text` accepts exactly the plain texts, and gives the caller's error for all others.
pub validate_text_iff :
    (s : Text) (max_chars : ℕ) (e : ValidationError)
    → ((validate_text s max_chars e ≡ ok tt) ↔ IsPlain max_chars s)
      × ((validate_text s max_chars e ≡ err e) ↔ (¬ IsPlain max_chars s))
unfolding validate_text
validate_text_iff s max_chars e = elim (Bool-cases (is_bad_text s max_chars)) [
  | inl bad ↦ ground (arith, is_bad_text_iff s max_chars)
  | inr good ↦ ground (arith, is_bad_text_iff s max_chars)
]
