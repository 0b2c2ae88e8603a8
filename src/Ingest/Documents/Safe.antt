-- ===== src/Ingest/Documents/Safe.antt =====
-- apps/tmdb-ingest/src/jobs.rs: the linked paths are few, distinct and safe to request.
use mathlib.Core.Path.{subst}
use tmdb_mirror.Prelude.{
  ℕ, zero, suc, ◌≤◌, ◌≡◌, refl, ◌≢◌, inl, inr, Bool, true, false, ◌||◌, List, [], ◌∷◌, ◌++◌, Option,
  none, some, any, All, Text, codes, text_eq, text_eq_iff, is_control, ◌==◌, if◌then◌else◌,
  Bool-cases, arith,
}
use tmdb_mirror.Prelude.Decimal.{show_number}
use tmdb_mirror.Jobs.Model.{is_empty}
use tmdb_mirror.Ingest.Documents.{
  Access, text_lt, insert, utf8_len, ends_with, is_separator, is_bad_component, checked_component,
  number_component, text_or_number, and_then, path_component, add_component, add_rows, add_array,
  add_id, rows_of, add_id_paths, add_result_paths, add_credit, add_section, is_credit_document, has,
  add_others, within, collect_linked_document_paths,
}

-- One part of a path.
pub record IsComponent (s : Text) : Type 0 where
  pub nonempty : s ≢ []
  pub short : utf8_len s ≤ 128
  pub no_dot : s ≢ codes "."
  pub no_dots : s ≢ codes ".."
  pub plain :
      All (λ c. (is_control c ≡ false) × (c ≢ b'/') × (c ≢ b'\\') × (c ≢ b'?') × (c ≢ b'#')) s

-- The forms of a linked path, with a component of the document.
pub data IsLink : Text → Type 0 where
  credit : (s : Text) → IsComponent s → IsLink (codes "credit/" ++ s)
  review : (s : Text) → IsComponent s → IsLink (codes "review/" ++ s)
  keyword : (s : Text) → IsComponent s → IsLink (codes "keyword/" ++ s)
  keyword_movies : (s : Text) → IsComponent s → IsLink ((codes "keyword/" ++ s) ++ codes "/movies")
  episode_group : (s : Text) → IsComponent s → IsLink (codes "tv/episode_group/" ++ s)

plain_of_tests :
    (s : Text)
    → any is_control s ≡ false
    → any is_separator s ≡ false
    → All (λ c. (is_control c ≡ false) × (c ≢ b'/') × (c ≢ b'\\') × (c ≢ b'?') × (c ≢ b'#')) s
plain_of_tests [] h k = tt
plain_of_tests (c ∷ s) h k = (ground arith, plain_of_tests s (ground arith) (ground arith))

ne_of_test : (s t : Text) → text_eq s t ≡ false → s ≢ t
ne_of_test s t h e = ground (arith, (text_eq_iff s t).1 e)

nonempty_of_test : (s : Text) → is_empty s ≡ false → s ≢ []
nonempty_of_test [] h = cc
nonempty_of_test (c ∷ s) h = λ e. cc

test-IsComponent : (s : Text) → is_bad_component s ≡ false → IsComponent s
unfolding is_bad_component
test-IsComponent s h = record {
  nonempty = nonempty_of_test s (ground arith);
  short = ground arith;
  no_dot = ne_of_test s (codes ".") (ground arith);
  no_dots = ne_of_test s (codes "..") (ground arith);
  plain = plain_of_tests s (ground arith) (ground arith);
}

checked_text :
    (b : Bool) (s : Text) {t : Text} → (if b then none else some s) ≡ some t → (b ≡ false) × (s ≡ t)
checked_text true s h = cc
checked_text false s h = (refl, ground arith)

checked-IsComponent : (s : Text) {t : Text} → checked_component s ≡ some t → IsComponent t
checked-IsComponent s h =
    let (good, same) = checked_text (is_bad_component s) s h in
    subst IsComponent same (test-IsComponent s good)

number-IsComponent : (o : Option ℕ) {t : Text} → number_component o ≡ some t → IsComponent t
number-IsComponent none h = cc
number-IsComponent (some n) {t} h = elim (Bool-cases (n == 0)) [
  | inl e ↦ cc
  | inr e ↦ checked-IsComponent (show_number n) (ground arith)
]

text_or_number-IsComponent :
    (o : Option Text) (n : Option ℕ) {t : Text} → text_or_number o n ≡ some t → IsComponent t
text_or_number-IsComponent none n h = number-IsComponent n h
text_or_number-IsComponent (some s) n h = checked-IsComponent s h

-- In ascending order, hence without repetition.
abbrev pub Ascending : List Text → Type 0
Ascending [] = Unit
Ascending (s ∷ []) = Unit
Ascending (s ∷ t ∷ set) = (text_lt s t ≡ true) × Ascending (t ∷ set)

text_lt_total : (s t : Text) → text_lt s t ≡ false → text_eq s t ≡ false → text_lt t s ≡ true
unfolding text_lt text_eq
text_lt_total [] [] h k = cc
text_lt_total [] (b ∷ t) h k = cc
text_lt_total (a ∷ s) [] h k = refl
text_lt_total (a ∷ s) (b ∷ t) h k = ground (arith, text_lt_total s t)

insert-above :
    (s t : Text) (set : List Text)
    → text_lt t s ≡ true
    → Ascending (t ∷ set)
    → Ascending (t ∷ insert s set)
unfolding insert
insert-above s t [] h k = (h, tt)
insert-above s t (u ∷ set) h k = elim (Bool-cases (text_lt s u)) [
  | inl e ↦ rw e (h, (e, k.1))
  | inr e ↦ elim (Bool-cases (text_eq s u)) [
    | inl e' ↦ rw (e, e') k
    | inr e' ↦ rw (e, e') (k.0, insert-above s u set (text_lt_total s u e e') k.1)
  ]
]

insert-Ascending : (s : Text) (set : List Text) → Ascending set → Ascending (insert s set)
unfolding insert
insert-Ascending s [] h = tt
insert-Ascending s (t ∷ set) h = elim (Bool-cases (text_lt s t)) [
  | inl e ↦ rw e (e, h)
  | inr e ↦ elim (Bool-cases (text_eq s t)) [
    | inl e' ↦ rw (e, e') h
    | inr e' ↦ rw (e, e') (insert-above s t set (text_lt_total s t e e') h)
  ]
]

-- A set of linked paths.
pub record IsLinked (set : List Text) : Type 0 where
  pub links : All IsLink set
  pub ascending : Ascending set

insert-All : (s : Text) (set : List Text) → IsLink s → All IsLink set → All IsLink (insert s set)
unfolding insert
insert-All s [] h k = (h, tt)
insert-All s (t ∷ set) h k = elim (Bool-cases (text_lt s t)) [
  | inl e ↦ rw e (h, k)
  | inr e ↦ elim (Bool-cases (text_eq s t)) [
    | inl e' ↦ rw (e, e') k
    | inr e' ↦ rw (e, e') (k.0, insert-All s set h k.1)
  ]
]

insert-IsLinked : (s : Text) (set : List Text) → IsLink s → IsLinked set → IsLinked (insert s set)
insert-IsLinked s set h k = record {
  links = insert-All s set h k.links;
  ascending = insert-Ascending s set k.ascending;
}

-- What adds a component to a set keeps it a set of linked paths.
abbrev Adds : (Text → List Text → List Text) → Type 0
Adds add = (s : Text) (set : List Text) → IsComponent s → IsLinked set → IsLinked (add s set)

module _ {Value : Type 0} (json : Access Value) where
  add_id-credit : Adds (add_credit json)
  add_id-credit s set h = insert-IsLinked _ set (IsLink.credit s h)

  add_id-review : Adds (add_id json (codes "review"))
  unfolding add_id text_eq
  add_id-review s set h = insert-IsLinked _ set (IsLink.review s h)

  add_id-episode_group : Adds (add_id json (codes "tv/episode_group"))
  unfolding add_id text_eq
  add_id-episode_group s set h = insert-IsLinked _ set (IsLink.episode_group s h)

  add_id-keyword : Adds (add_id json (codes "keyword"))
  unfolding add_id text_eq
  add_id-keyword s set h k =
      insert-IsLinked _ _ (IsLink.keyword_movies s h) (insert-IsLinked _ set (IsLink.keyword s h) k)

  module _ (add : Text → List Text → List Text) (adds : Adds add) (name : Text) where
    add_component-IsLinked :
        (o : Option Text) (set : List Text)
        → ((s : Text) → o ≡ some s → IsComponent s)
        → IsLinked set
        → IsLinked (add_component json add o set)
    add_component-IsLinked none set h k = k
    add_component-IsLinked (some s) set h k = adds s set (h s refl) k

    row-IsComponent :
        (o : Option Value) (s : Text) → and_then o (path_component json) ≡ some s → IsComponent s
    unfolding path_component
    row-IsComponent none s h = cc
    row-IsComponent (some v) s h = text_or_number-IsComponent (json.as_str v) (json.as_u64 v) h

    add_rows-IsLinked :
        (rows : List Value) (set : List Text)
        → IsLinked set
        → IsLinked (add_rows json add name rows set)
    unfolding add_rows
    add_rows-IsLinked [] set k = k
    add_rows-IsLinked (row ∷ rows) set k = add_rows-IsLinked rows _ (
        add_component-IsLinked (and_then (json.get row name) (path_component json)) set
          (row-IsComponent (json.get row name)) k)

    add_array-IsLinked :
        (o : Option (List Value)) (set : List Text)
        → IsLinked set
        → IsLinked (add_array json add name o set)
    add_array-IsLinked none set k = k
    add_array-IsLinked (some rows) set k = add_rows-IsLinked rows set k

  add_id_paths-IsLinked :
      (prefix : Text) (o : Option Value) (set : List Text)
      → Adds (add_id json prefix)
      → IsLinked set
      → IsLinked (add_id_paths json o prefix set)
  unfolding add_id_paths
  add_id_paths-IsLinked prefix o set adds k =
      add_array-IsLinked (add_id json prefix) adds (codes "id") (and_then o (rows_of json)) set k

  choice-IsLinked :
      (b : Bool) (set other : List Text)
      → IsLinked set
      → IsLinked other
      → IsLinked (if b then set else other)
  choice-IsLinked true set other h k = h
  choice-IsLinked false set other h k = k

  section-IsLinked :
      (o : Option Value) (set : List Text) → IsLinked set → IsLinked (add_section json o set)
  section-IsLinked o set k =
      add_array-IsLinked (add_credit json) add_id-credit (codes "credit_id")
        (and_then o json.as_array) set k

  within-IsLinked :
      (o : Option Value) (go : Value → List Text → List Text) (set : List Text)
      → ((v : Value) (other : List Text) → IsLinked other → IsLinked (go v other))
      → IsLinked set
      → IsLinked (within json o go set)
  within-IsLinked none go set h k = k
  within-IsLinked (some v) go set h k = h v set k

  add_others-IsLinked :
      (path : Text) (v : Value) (set : List Text)
      → IsLinked set
      → IsLinked (add_others json path v set)
  unfolding add_others add_result_paths
  add_others-IsLinked path v set k =
      let reviewed =
        choice-IsLinked (ends_with path (codes "/reviews")) _ set
          (add_id_paths-IsLinked (codes "review") (json.get v (codes "results")) set add_id-review
            k)
          k in
      let tagged =
        choice-IsLinked (ends_with path (codes "/keywords") || has json v (codes "keywords")) _ _
          (add_id_paths-IsLinked (codes "keyword") (json.get v (codes "results")) _ add_id-keyword (
            add_id_paths-IsLinked (codes "keyword") (json.get v (codes "keywords")) _ add_id-keyword
              reviewed))
          reviewed in
      choice-IsLinked
        (ends_with path (codes "/episode_groups") || has json v (codes "episode_groups")) _ _
        (add_id_paths-IsLinked (codes "tv/episode_group") (json.get v (codes "results")) _
          add_id-episode_group
          (add_id_paths-IsLinked (codes "tv/episode_group") (json.get v (codes "episode_groups")) _
            add_id-episode_group tagged))
        tagged

  pub collect-IsLinked :
      (depth : ℕ) (path : Text) (v : Value) (set : List Text)
      → IsLinked set
      → IsLinked (collect_linked_document_paths json depth path v set)
  unfolding collect_linked_document_paths
  collect-IsLinked zero path v set k = k
  collect-IsLinked (suc depth) path v set k =
      let sections =
        section-IsLinked (json.get v (codes "crew")) _
          (section-IsLinked (json.get v (codes "cast")) set k) in
      let credits =
        within-IsLinked (json.get v (codes "aggregate_credits")) _ _
          (λ w other. collect-IsLinked depth path w other)
          (within-IsLinked (json.get v (codes "credits")) _ _
            (λ w other. collect-IsLinked depth path w other) sections) in
      add_others-IsLinked path v _
        (choice-IsLinked (is_credit_document json path v) _ set credits k)
