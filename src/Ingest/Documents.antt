-- ===== src/Ingest/Documents.antt =====
-- apps/tmdb-ingest/src/jobs.rs: the documents that a stored document links to.
-- The accessors of serde_json's values are parameters. A `BTreeSet` of texts is its elements in order.
pub mod Safe
pub mod Bounded
use tmdb_mirror.Prelude.{
  ℕ, zero, suc, ◌+◌, ◌<◌, ◌≡◌, Bool, true, false, not, ◌&&◌, ◌||◌, List, [], ◌∷◌, ◌++◌, Option,
  none, some, take, any, reverse, Text, codes, text_eq, is_control, ltb, ◌==◌, if◌then◌else◌,
}
use tmdb_mirror.Prelude.Decimal.{show_number}
use tmdb_mirror.Jobs.Model.{is_empty}

abbrev pub max_linked_documents : ℕ
max_linked_documents = 256

-- `Value::get`, `as_array`, `as_str` and `as_u64`.
pub record Access (Value : Type 0) : Type 0 where
  pub get : Value → Text → Option Value
  pub as_array : Value → Option (List Value)
  pub as_str : Value → Option Text
  pub as_u64 : Value → Option ℕ

pub record CapturedDocument (Value : Type 0) : Type 0 where
  pub endpoint_path : Text
  pub query_string : Text
  pub response : Value

-- The order of texts, and the insertion into a set.
unfoldable pub text_lt : Text → Text → Bool
text_lt s [] = false
text_lt [] (b ∷ t) = true
text_lt (a ∷ s) (b ∷ t) = ltb a b || ((a == b) && text_lt s t)

unfoldable pub insert : Text → List Text → List Text
insert s [] = s ∷ []
insert s (t ∷ set) =
    let more = insert s set in
    if text_lt s t then s ∷ t ∷ set else if text_eq s t then t ∷ set else t ∷ more

-- `str::len`: the bytes of UTF-8.
unfoldable pub utf8_len : Text → ℕ
utf8_len [] = 0
utf8_len (c ∷ s) =
    (if ltb c 0x80 then 1 else if ltb c 0x800 then 2 else if ltb c 0x10000 then 3 else 4)
    + utf8_len s

abbrev has_prefix : Text → Text → Bool
has_prefix s [] = true
has_prefix [] (b ∷ t) = false
has_prefix (a ∷ s) (b ∷ t) = (a == b) && has_prefix s t

unfoldable pub ends_with : Text → Text → Bool
ends_with s t = has_prefix (reverse s) (reverse t)

abbrev pub is_separator : ℕ → Bool
is_separator c = (c == b'/') || (c == b'\\') || (c == b'?') || (c == b'#')

unfoldable pub is_bad_component : Text → Bool
is_bad_component s =
    is_empty s
    || ltb 128 (utf8_len s)
    || text_eq s (codes ".")
    || text_eq s (codes "..")
    || any is_control s
    || any is_separator s

abbrev pub checked_component : Text → Option Text
checked_component s = if is_bad_component s then none else some s

abbrev pub number_component : Option ℕ → Option Text
number_component none = none
number_component (some n) = if n == 0 then none else checked_component (show_number n)

-- A text, or else a positive number.
abbrev pub text_or_number : Option Text → Option ℕ → Option Text
text_or_number (some s) n = checked_component s
text_or_number none n = number_component n

-- `Option::or_else` and `Option::and_then`.
abbrev pub or_else : {A : Type 0} → Option A → Option A → Option A
or_else none other = other
or_else (some a) other = some a

abbrev pub and_then : {A B : Type 0} → Option A → (A → Option B) → Option B
and_then none f = none
and_then (some a) f = f a

abbrev pub is_present : {A : Type 0} → Option A → Bool
is_present none = false
is_present (some a) = true

module _ {Value : Type 0} (json : Access Value) where
  unfoldable pub path_component : Value → Option Text
  path_component v = text_or_number (json.as_str v) (json.as_u64 v)

  -- The component under a name of each row, turned into paths.
  abbrev pub add_component : (Text → List Text → List Text) → Option Text → List Text → List Text
  add_component add none paths = paths
  add_component add (some s) paths = add s paths

  unfoldable pub add_rows :
      (Text → List Text → List Text) → Text → List Value → List Text → List Text
  add_rows add name [] paths = paths
  add_rows add name (row ∷ rows) paths =
      add_rows add name rows (add_component add (and_then (json.get row name) path_component) paths)

  abbrev pub add_array :
      (Text → List Text → List Text) → Text → Option (List Value) → List Text → List Text
  add_array add name none paths = paths
  add_array add name (some rows) paths = add_rows add name rows paths

  abbrev pub slash : Text → Text → Text
  slash prefix id = prefix ++ (b'/' ∷ id)

  unfoldable pub add_id : Text → Text → List Text → List Text
  add_id prefix id paths =
      if text_eq prefix (codes "keyword")
      then insert (slash prefix id ++ codes "/movies") (insert (slash prefix id) paths)
      else insert (slash prefix id) paths

  abbrev pub rows_of : Value → Option (List Value)
  rows_of v = or_else (json.as_array v) (
      or_else (and_then (json.get v (codes "results")) json.as_array)
        (and_then (json.get v (codes "keywords")) json.as_array))

  unfoldable pub add_id_paths : Option Value → Text → List Text → List Text
  add_id_paths v prefix paths = add_array (add_id prefix) (codes "id") (and_then v rows_of) paths

  unfoldable pub add_result_paths : Value → Text → List Text → List Text
  add_result_paths v prefix paths = add_id_paths (json.get v (codes "results")) prefix paths

  abbrev pub add_credit : Text → List Text → List Text
  add_credit id paths = insert (slash (codes "credit") id) paths

  abbrev pub has : Value → Text → Bool
  has v name = is_present (json.get v name)

  abbrev pub add_section : Option Value → List Text → List Text
  add_section v paths = add_array add_credit (codes "credit_id") (and_then v json.as_array) paths

  abbrev pub is_credit_document : Text → Value → Bool
  is_credit_document path v =
      ends_with path (codes "/credits")
      || ends_with path (codes "/aggregate_credits")
      || has v (codes "cast")
      || has v (codes "crew")
      || has v (codes "credits")
      || has v (codes "aggregate_credits")

  -- The links of a document besides its credits.
  unfoldable pub add_others : Text → Value → List Text → List Text
  add_others path v paths =
      let reviewed =
        if ends_with path (codes "/reviews")
        then add_result_paths v (codes "review") paths
        else paths in
      let tagged =
        if ends_with path (codes "/keywords") || has v (codes "keywords")
        then add_id_paths (json.get v (codes "results")) (codes "keyword")
            (add_id_paths (json.get v (codes "keywords")) (codes "keyword") reviewed)
        else reviewed in
      if ends_with path (codes "/episode_groups") || has v (codes "episode_groups")
      then add_id_paths (json.get v (codes "results")) (codes "tv/episode_group")
          (add_id_paths (json.get v (codes "episode_groups")) (codes "tv/episode_group") tagged)
      else tagged

  -- The recursion into `credits` and `aggregate_credits`, by the depth that is left.
  abbrev pub within : Option Value → (Value → List Text → List Text) → List Text → List Text
  within none go paths = paths
  within (some v) go paths = go v paths

  unfoldable pub collect_linked_document_paths : ℕ → Text → Value → List Text → List Text
  collect_linked_document_paths zero path v paths = paths
  collect_linked_document_paths (suc depth) path v paths =
      let sections =
        add_section (json.get v (codes "crew")) (add_section (json.get v (codes "cast")) paths) in
      let credits =
        within (json.get v (codes "aggregate_credits")) (collect_linked_document_paths depth path) (
          within (json.get v (codes "credits")) (collect_linked_document_paths depth path)
            sections) in
      add_others path v (if is_credit_document path v then credits else paths)

  -- `depth` bounds the nesting of a value.
  module _ (depth : Value → ℕ) where
    abbrev pub collect_all : List (Text × Value) → List Text → List Text
    collect_all [] paths = paths
    collect_all ((path, v) ∷ more) paths =
        collect_all more (collect_linked_document_paths (suc (depth v)) path v paths)

    abbrev pub sources : List (CapturedDocument Value) → List (Text × Value)
    sources [] = []
    sources (d ∷ documents) = (d.endpoint_path, d.response) ∷ sources documents

    unfoldable pub linked_document_paths :
        List (CapturedDocument Value) → List (Text × Value) → List Text
    linked_document_paths documents detail_sources =
        take max_linked_documents (collect_all detail_sources (collect_all (sources documents) []))
