-- ===== src/Media/Public.antt =====
-- crates/tmdb-media/src/lib.rs: the paths of images are such as the media server may serve.
use tmdb_mirror.Prelude.{ℕ, ◌≡◌, refl, true, [], ◌∷◌, ◌==◌, ok, Text, arith, all, not, ℤ}
use tmdb_mirror.Prelude.Decimal.{show_number, all-show_number}
use tmdb_mirror.Media.{
  TitleScope, movie, tv, AssetVariant, ImageFormat, title_subdirectory, title_asset, parts_of, grow,
  is_plain_part, is_public_relative,
}
use tmdb_mirror.Media.Names.{name_of}
use tmdb_mirror.Media.Distinct.{is_other, name_of-plain}
use tmdb_mirror.Media.Paths.{
  scope_dir, slashed, path_of, title_asset-path, subdirectory-plain, number-plain,
}

parts_of-slash :
    (x path : Text) → all is_other x ≡ true → parts_of (slashed x path) ≡ x ∷ parts_of path
unfolding parts_of grow
parts_of-slash [] path h = refl
parts_of-slash (c ∷ x) path h = ground (arith, parts_of-slash x path)

pub parts_of-one : (x : Text) → all is_other x ≡ true → parts_of x ≡ x ∷ []
unfolding parts_of grow
parts_of-one [] h = refl
parts_of-one (c ∷ x) h = ground (arith, parts_of-one x)

pub number-plain_part : (n : ℕ) → is_plain_part (show_number n) ≡ true
number-plain_part n =
    plain (show_number n) (all-show_number (λ c. not (c == b'.')) n (λ d h. ground arith))
  where
    plain : (t : Text) → all (λ c. not (c == b'.')) t ≡ true → is_plain_part t ≡ true
    plain [] h = refl
    plain (c ∷ []) h = refl
    plain (c ∷ d ∷ t) h = ground arith

pub dir-plain :
    (scope : TitleScope)
    → (all is_other (scope_dir scope) ≡ true) × (is_plain_part (scope_dir scope) ≡ true)
dir-plain movie = (refl, refl)
dir-plain tv = (refl, refl)

-- The parts of a path are plain if the first is, and has no slash, and the others are.
pub parts-cons :
    (x path : Text)
    → all is_other x ≡ true
    → is_plain_part x ≡ true
    → all is_plain_part (parts_of path) ≡ true
    → all is_plain_part (parts_of (slashed x path)) ≡ true
parts-cons x path h k rest = rw (parts_of-slash x path h) (ground arith)

pub parts-one :
    (x : Text)
    → all is_other x ≡ true
    → is_plain_part x ≡ true
    → all is_plain_part (parts_of x) ≡ true
parts-one x h k = rw (parts_of-one x h) (ground arith)

path_of-parts :
    (scope : TitleScope) (n : ℕ) (v : AssetVariant) (f : ImageFormat)
    → all is_plain_part (parts_of (path_of scope n v f)) ≡ true
path_of-parts scope n v f =
    let (name, name') = name_of-plain v f in
    let (sub, sub') = subdirectory-plain v in
    let (dir, dir') = dir-plain scope in
    parts-cons (scope_dir scope) _ dir dir' (
      parts-cons (show_number n) _ (number-plain n) (number-plain_part n) (
        parts-cons (title_subdirectory v) (name_of v f) sub sub'
          (parts-one (name_of v f) name name')))

path_of-public :
    (scope : TitleScope) (n : ℕ) (v : AssetVariant) (f : ImageFormat)
    → is_public_relative (path_of scope n v f) ≡ true
unfolding is_public_relative
path_of-public movie n v f = path_of-parts movie n v f
path_of-public tv n v f = path_of-parts tv n v f

-- Every path of a title's asset is one that the media server may serve: relative, and without a
-- part that starts with a dot.
pub title_asset-public :
    (scope : TitleScope) (tmdb_id : ℤ) (v : AssetVariant) (f : ImageFormat) (path : Text)
    → title_asset scope tmdb_id v f ≡ ok path
    → is_public_relative path ≡ true
title_asset-public scope tmdb_id v f path h =
    let (n, i, p) = title_asset-path scope tmdb_id v f path h in rw p (path_of-public scope n v f)
