-- ===== src/Ingest/Export/Ids.antt =====
-- apps/tmdb-ingest/src/jobs.rs: the ids of an export's file, and how a reading splits them.
use native.Mathlib.Nat.{suc-add}
use tmdb_mirror.Prelude.{
  ℕ, zero, suc, ◌+◌, ◌<◌, ◌≡◌, refl, sym, ap, ◌∙◌, Bool, true, List, [], ◌∷◌, ◌++◌, Option, length,
  drop, Result, ok, err, ◌>>=◌, Text, ◌==◌, if◌then◌else◌, Bool-cases, inl, inr, arith,
}
use tmdb_mirror.Jobs.Worker.{JobExecutionError}
use tmdb_mirror.Upstream.Export.{split_line}
use tmdb_mirror.Ingest.Scan.{collect, collect_first, onto}
use tmdb_mirror.Ingest.Export.{Reading, id_of_line, prepend, read_ids}

-- The lines of a file, each with its line feed; the last one may lack it.
abbrev pub onto_first : ℕ → List (List ℕ) → List (List ℕ)
onto_first b [] = (b ∷ []) ∷ []
onto_first b (line ∷ more) = (b ∷ line) ∷ more

unfoldable pub lines : List ℕ → List (List ℕ)
lines [] = []
lines (b ∷ bytes) = if b == 10 then (b ∷ []) ∷ lines bytes else onto_first b (lines bytes)

lines-split :
    (b : ℕ) (bytes : List ℕ)
    → lines (b ∷ bytes) ≡ (split_line (b ∷ bytes)).0 ∷ lines (split_line (b ∷ bytes)).1
unfolding lines split_line
lines-split b [] = ground arith
lines-split b (c ∷ bytes) = elim (Bool-cases (b == 10)) [
  | inl e ↦ rw e
  | inr e ↦ rw e (ap (onto_first b) (lines-split c bytes))
]

pub split-append : (bytes : List ℕ) → (split_line bytes).0 ++ (split_line bytes).1 ≡ bytes
unfolding split_line
split-append [] = refl
split-append (b ∷ bytes) = elim (Bool-cases (b == 10)) [
  | inl e ↦ rw e
  | inr e ↦ rw e (ap (λ r. b ∷ r) (split-append bytes))
]

pub split-nonempty : (b : ℕ) (bytes : List ℕ) → 0 < length (split_line (b ∷ bytes)).0
unfolding split_line
split-nonempty b bytes = elim (Bool-cases (b == 10)) [
  | inl e ↦ rw e (omega arith)
  | inr e ↦ rw e (omega arith)
]

pub drop-nil : (n : ℕ) → drop {A = ℕ} n [] ≡ []
drop-nil zero = refl
drop-nil (suc n) = refl

pub drop-add : (a b : ℕ) (xs : List ℕ) → drop (a + b) xs ≡ drop b (drop a xs)
drop-add zero b xs = ap (λ n. drop n xs) (omega arith)
drop-add (suc a) b [] = drop-nil (suc a + b) ∙ sym (drop-nil b)
drop-add (suc a) b (x ∷ xs) = ap (λ n. drop n (x ∷ xs)) (suc-add a b) ∙ drop-add a b xs

pub drop-append : (xs ys : List ℕ) → drop (length xs) (xs ++ ys) ≡ ys
drop-append [] ys = refl
drop-append (x ∷ xs) ys = drop-append xs ys

module _ (decode : List ℕ → Option Text) where
  -- All ids of a file, or the error of its first bad line.
  unfoldable pub all_ids : List ℕ → Result JobExecutionError (List ℕ)
  all_ids bytes = collect (id_of_line decode) (lines bytes)

  pub all_ids-nil : all_ids [] ≡ ok []
  unfolding all_ids lines
  all_ids-nil = refl

  all_ids-split :
      (b : ℕ) (rest : List ℕ)
      → all_ids (b ∷ rest)
        ≡ collect_first
            (id_of_line decode (split_line (b ∷ rest)).0)
            (all_ids (split_line (b ∷ rest)).1)
  unfolding all_ids
  all_ids-split b rest = ap (collect (id_of_line decode)) (lines-split b rest)

  -- The ids that a reading has, with those of the rest.
  abbrev pub completed : Reading → Result JobExecutionError (List ℕ)
  completed r = all_ids r.rest >>= λ more. ok (r.ids ++ more)

  same_ok : (m : Result JobExecutionError (List ℕ)) → (m >>= λ more. ok more) ≡ m
  same_ok (err e) = refl
  same_ok (ok more) = refl

  prepend_completed :
      (id : ℕ) (r : Reading) (m : Result JobExecutionError (List ℕ))
      → onto id (m >>= λ more. ok (r.ids ++ more)) ≡ (m >>= λ more. ok ((id ∷ r.ids) ++ more))
  prepend_completed id r (err e) = refl
  prepend_completed id r (ok more) = refl

  first_completed :
      (i : Result JobExecutionError ℕ) (m : Result JobExecutionError Reading)
      → collect_first i (m >>= completed)
        ≡ ((i >>= λ id. m >>= λ r. ok (prepend decode id r)) >>= completed)
  first_completed (err e) m = refl
  first_completed (ok id) (err e) = refl
  first_completed (ok id) (ok r) = prepend_completed id r (all_ids r.rest)

  module _ (readable : ℕ → Bool) (reads : (offset : ℕ) → readable offset ≡ true) where
    -- A reading of some ids and then of the rest is a reading of all.
    pub read_ids-completed :
        (n : ℕ) (rest : List ℕ) (offset : ℕ)
        → all_ids rest ≡ (read_ids decode readable n rest offset >>= completed)
    unfolding read_ids
    read_ids-completed zero rest offset = sym (same_ok (all_ids rest))
    read_ids-completed (suc n) [] offset = rw (reads offset) (sym (same_ok (all_ids [])))
    read_ids-completed (suc n) (b ∷ rest) offset =
        let line = (split_line (b ∷ rest)).0 in
        let left = (split_line (b ∷ rest)).1 in
        rw (reads offset) (
          all_ids-split b rest
          ∙ ap (collect_first (id_of_line decode line))
              (read_ids-completed n left (offset + length line))
          ∙ first_completed (id_of_line decode line)
              (read_ids decode readable n left (offset + length line)))
