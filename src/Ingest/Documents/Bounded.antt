-- ===== src/Ingest/Documents/Bounded.antt =====
-- apps/tmdb-ingest/src/jobs.rs: the links of all documents together, and the depth of the recursion.
use tmdb_mirror.Prelude.{
  ℕ, zero, suc, ◌≤◌, ◌<◌, ◌≡◌, refl, ap, ◌∙◌, List, [], ◌∷◌, Option, none, some, take, length,
  length-take, All, Text, codes, if◌then◌else◌, arith,
}
use tmdb_mirror.Ingest.Documents.{
  Access, CapturedDocument, add_section, is_credit_document, add_others, within,
  collect_linked_document_paths, collect_all, sources, linked_document_paths,
}
use tmdb_mirror.Ingest.Documents.Safe.{IsLink, Ascending, IsLinked, collect-IsLinked}

take-links : (n : ℕ) (set : List Text) → All IsLink set → All IsLink (take n set)
take-links zero set h = tt
take-links (suc n) [] h = tt
take-links (suc n) (s ∷ set) h = (h.0, take-links n set h.1)

take-Ascending : (n : ℕ) (set : List Text) → Ascending set → Ascending (take n set)
take-Ascending zero set h = tt
take-Ascending (suc n) [] h = tt
take-Ascending (suc zero) (s ∷ set) h = tt
take-Ascending (suc (suc n)) (s ∷ []) h = tt
take-Ascending (suc (suc n)) (s ∷ t ∷ set) h = (h.0, take-Ascending (suc n) (t ∷ set) h.1)

module _ {Value : Type 0} (json : Access Value) where
  within-same :
      (o : Option Value) (f g : Value → List Text → List Text) (set : List Text)
      → ((v : Value) → o ≡ some v → (other : List Text) → f v other ≡ g v other)
      → within json o f set ≡ within json o g set
  within-same none f g set h = refl
  within-same (some v) f g set h = h v refl set

  module _ (depth : Value → ℕ) where
    -- Depths above that of the value make no difference, when a member of a value is less deep.
    collect-depth :
        ((v w : Value) (name : Text) → json.get v name ≡ some w → depth w < depth v)
        → (n m : ℕ) (path : Text) (v : Value) (set : List Text) → depth v < n
        → depth v < m
        → collect_linked_document_paths json n path v set
          ≡ collect_linked_document_paths json m path v set
    unfolding collect_linked_document_paths
    collect-depth smaller zero m path v set h k = absurd (omega arith)
    collect-depth smaller (suc n) zero path v set h k = absurd (omega arith)
    collect-depth smaller (suc n) (suc m) path v set h k =
        let first = collect_linked_document_paths json n path in
        let second = collect_linked_document_paths json m path in
        let sections =
          add_section json (json.get v (codes "crew"))
            (add_section json (json.get v (codes "cast")) set) in
        ap
          (λ credits.
            add_others json path v (if is_credit_document json path v then credits else set))
          (within-same (json.get v (codes "aggregate_credits")) first second
              (within json (json.get v (codes "credits")) first sections)
              (λ w e other.
                collect-depth smaller n m path w other
                  (omega (arith, smaller v w (codes "aggregate_credits") e))
                  (omega (arith, smaller v w (codes "aggregate_credits") e)))
            ∙ ap (within json (json.get v (codes "aggregate_credits")) second) (
                within-same (json.get v (codes "credits")) first second sections (λ w e other.
                  collect-depth smaller n m path w other
                    (omega (arith, smaller v w (codes "credits") e))
                    (omega (arith, smaller v w (codes "credits") e)))))

    collect_all-IsLinked :
        (documents : List (Text × Value)) (set : List Text)
        → IsLinked set
        → IsLinked (collect_all json depth documents set)
    collect_all-IsLinked [] set k = k
    collect_all-IsLinked ((path, v) ∷ more) set k =
        collect_all-IsLinked more _ (collect-IsLinked json (suc (depth v)) path v set k)

    -- The linked paths of any documents are at most 256, strictly ascending, and each is the path of
    -- a credit, a review, a keyword, its movies or an episode group, whose one variable part is not
    -- empty, at most 128 bytes long, neither one dot nor two, and without control characters, slashes,
    -- backslashes, question marks and number signs.
    pub linked_document_paths-IsLinked :
        (documents : List (CapturedDocument Value)) (detail_sources : List (Text × Value))
        → IsLinked (linked_document_paths json depth documents detail_sources)
          × (length (linked_document_paths json depth documents detail_sources) ≤ 256)
    unfolding linked_document_paths
    linked_document_paths-IsLinked documents detail_sources =
        let all =
          collect_all json depth detail_sources
            (collect_all json depth (sources json depth documents) []) in
        let linked = collect_all-IsLinked detail_sources _ (
          collect_all-IsLinked (sources json depth documents) []
            (record { links = tt; ascending = tt })) in
        (
          record {
            links = take-links 256 all linked.links;
            ascending = take-Ascending 256 all linked.ascending;
          },
          omega (arith, length-take 256 all),
        )
