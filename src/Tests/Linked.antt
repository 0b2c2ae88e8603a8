-- ===== src/Tests/Linked.antt =====
-- Tests of the linked documents, and their theorem at the documents of a test.
use tmdb_mirror.Prelude.{
  ℕ, ◌≤◌, ◌≡◌, refl, List, [], ◌∷◌, Option, none, some, length, Text, codes, text_eq, is_control,
}
use tmdb_mirror.Prelude.Decimal.{show_number}
use tmdb_mirror.Ingest.Documents.{
  Access, CapturedDocument, linked_document_paths, collect_linked_document_paths, text_lt, insert,
  utf8_len, ends_with, is_bad_component, path_component, add_rows, add_id, add_id_paths,
  add_result_paths, add_others,
}
use tmdb_mirror.Ingest.Documents.Safe.{IsLinked}
use tmdb_mirror.Ingest.Documents.Bounded.{linked_document_paths-IsLinked}
use tmdb_mirror.Tests.Documents.{Doc, member, read_array, read_string, array}

abbrev as_u64 : Doc → Option ℕ
as_u64 (Doc.number n) = some n
as_u64 _ = none

abbrev access : Access Doc
access = record { get = member; as_array = read_array; as_str = read_string; as_u64 = as_u64 }

-- An object of one entry, and one of two.
abbrev one : Text → Doc → Doc
one k v = Doc.object (Doc.entry k v Doc.no_entry)

abbrev two : Text → Doc → Text → Doc → Doc
two k v l w = Doc.object (Doc.entry k v (Doc.entry l w Doc.no_entry))

abbrev credit : Text → Doc
credit id = one (codes "credit_id") (Doc.string id)

abbrev detail : Doc
detail =
    two (codes "credits")
      (two (codes "cast") (array (credit (codes "credit-b") ∷ credit (codes "../secret") ∷ []))
        (codes "crew") (array (credit (codes "credit-a") ∷ credit (codes "credit-b") ∷ [])))
      (codes "keywords") (one (codes "keywords") (array (one (codes "id") (Doc.number 20) ∷ [])))

abbrev reviews : CapturedDocument Doc
reviews = record {
  endpoint_path = codes "movie/42/reviews";
  query_string = [];
  response = one (codes "results") (array (one (codes "id") (Doc.string (codes "review-1")) ∷ []));
}

abbrev two_deep : Doc → ℕ
two_deep v = 2

linked : List Text
linked = linked_document_paths access two_deep (reviews ∷ []) ((codes "movie/42", detail) ∷ [])

linked_paths :
    linked
    ≡ codes "credit/credit-a"
      ∷ codes "credit/credit-b"
      ∷ codes "keyword/20"
      ∷ codes "keyword/20/movies"
      ∷ codes "review/review-1"
      ∷ []
unfolding linked linked_document_paths collect_linked_document_paths text_lt text_eq insert utf8_len
    ends_with is_bad_component is_control path_component add_rows add_id add_id_paths
    add_result_paths add_others show_number
linked_paths = refl

linked_document_paths_example :
    IsLinked
      (linked_document_paths access two_deep (reviews ∷ []) ((codes "movie/42", detail) ∷ []))
    × (length
          (linked_document_paths access two_deep (reviews ∷ []) ((codes "movie/42", detail) ∷ []))
        ≤ 256)
linked_document_paths_example =
    linked_document_paths-IsLinked access two_deep (reviews ∷ []) ((codes "movie/42", detail) ∷ [])
