-- ===== src/Media/Paths.antt =====
-- crates/tmdb-media/src/lib.rs: the paths of images, and that they tell images apart.
use mathlib.Core.List.{append_assoc}
use mathlib.Core.Path.{subst}
use tmdb_mirror.Prelude.{
  ℕ, zero, suc, ◌≡◌, refl, sym, ap, ◌∙◌, drop, true, [], ◌∷◌, ◌++◌, Result, ok, err, ◌>>=◌, Text,
  codes, arith, length, all, ℤ, pos, negsuc,
}
use tmdb_mirror.Prelude.Decimal.{show_number, read_number, read_number-show_number, all-show_number}
use tmdb_mirror.Media.{
  TitleScope, movie, tv, AssetVariant, poster, backdrop, logo, profile, season_poster,
  episode_thumbnail, ImageFormat, MediaPathError, invalid_id, invalid_number, positive_id,
  show_integer, title_subdirectory, variant_filename, title_dir, title_asset, is_plain_part, push,
}
use tmdb_mirror.Media.Names.{name_of, IsNumbered, Named, variant_filename-Named}
use tmdb_mirror.Media.Distinct.{is_other, name_of-injective}

-- The directory of a scope.
abbrev pub scope_dir : TitleScope → Text
scope_dir movie = codes "movies"
scope_dir tv = codes "tv"

abbrev pub slashed : Text → Text → Text
slashed x path = x ++ (b'/' ∷ path)

-- The path of an asset, whatever the numbers are.
abbrev pub path_of : TitleScope → ℕ → AssetVariant → ImageFormat → Text
path_of scope id v f =
    slashed (scope_dir scope)
      (slashed (show_number id) (slashed (title_subdirectory v) (name_of v f)))

-- What a computation of a path should give: the path, or the error of the first wrong number.
abbrev pub Located :
    TitleScope → ℤ → AssetVariant → ImageFormat → Result MediaPathError Text → Type 0
Located scope (negsuc n) v f r = r ≡ err invalid_id
Located scope (pos zero) v f r = r ≡ err invalid_id
Located scope (pos (suc n)) v f (ok path) = IsNumbered v × (path ≡ path_of scope (suc n) v f)
Located scope (pos (suc n)) v f (err e) = (¬ IsNumbered v) × (e ≡ invalid_number)

pub push-eq :
    (dir id sub name : Text)
    → push (push (slashed dir id) sub) name ≡ slashed dir (slashed id (slashed sub name))
push-eq dir id sub name =
    append_assoc (slashed dir id) (b'/' ∷ sub) (b'/' ∷ name)
    ∙ append_assoc dir (b'/' ∷ id) ((b'/' ∷ sub) ++ (b'/' ∷ name))

located :
    (scope : TitleScope) (n : ℕ) (v : AssetVariant) (f : ImageFormat)
    (r : Result MediaPathError Text)
    → Named v f r
    → Located scope (pos (suc n)) v f (
        r >>= λ name.
        ok (
          push
            (push (slashed (scope_dir scope) (show_number (suc n))) (title_subdirectory v))
            name))
located scope n v f (err e) h = h
located scope n v f (ok name) (numbered, same) = (
  numbered,
  push-eq (scope_dir scope) (show_number (suc n)) (title_subdirectory v) name
      ∙ ap
          (λ t.
            slashed (scope_dir scope)
              (slashed (show_number (suc n)) (slashed (title_subdirectory v) t)))
          same,
)

-- For an identifier from 1 on and a variant whose episode and index are from 1 on, the path of a
-- title's asset is the one described; another identifier is refused with `invalid_id` and another
-- number with `invalid_number`.
pub title_asset-Located :
    (scope : TitleScope) (tmdb_id : ℤ) (v : AssetVariant) (f : ImageFormat)
    → Located scope tmdb_id v f (title_asset scope tmdb_id v f)
unfolding title_asset title_dir positive_id show_integer
title_asset-Located scope (negsuc n) v f = refl
title_asset-Located scope (pos zero) v f = refl
title_asset-Located movie (pos (suc n)) v f =
    located movie n v f (variant_filename v f) (variant_filename-Named v f)
title_asset-Located tv (pos (suc n)) v f =
    located tv n v f (variant_filename v f) (variant_filename-Named v f)

pub slash-injective :
    (x y a b : Text)
    → all is_other x ≡ true
    → all is_other y ≡ true
    → slashed x a ≡ slashed y b
    → (x ≡ y) × (a ≡ b)
slash-injective [] [] a b h k e = (refl, ap (drop 1) e)
slash-injective [] (c ∷ y) a b h k e = ground arith
slash-injective (c ∷ x) [] a b h k e = ground arith
slash-injective (c ∷ x) (d ∷ y) a b h k e = grind (arith, slash-injective x y a b)

pub subdirectory-plain :
    (v : AssetVariant)
    → (all is_other (title_subdirectory v) ≡ true) × (is_plain_part (title_subdirectory v) ≡ true)
unfolding title_subdirectory
subdirectory-plain (poster i) = (refl, refl)
subdirectory-plain (season_poster s i) = (refl, refl)
subdirectory-plain (backdrop i) = (refl, refl)
subdirectory-plain (logo i) = (refl, refl)
subdirectory-plain (profile i) = (refl, refl)
subdirectory-plain (episode_thumbnail s e i) = (refl, refl)

pub number-plain : (n : ℕ) → all is_other (show_number n) ≡ true
number-plain n = all-show_number is_other n (λ d h. ground arith)

pub number-injective : (m n : ℕ) → show_number m ≡ show_number n → m ≡ n
number-injective m n h =
    ap (λ p. p.0) (sym (read_back m) ∙ ap (λ t. read_number (t ++ [])) h ∙ read_back n)
  where
    read_back : (k : ℕ) → read_number (show_number k ++ []) ≡ (k, [])
    read_back k = read_number-show_number k [] tt

path_of-injective :
    (scope scope' : TitleScope) (m n : ℕ) (v w : AssetVariant) (f g : ImageFormat)
    → path_of scope m v f ≡ path_of scope' n w g
    → (scope ≡ scope') × (m ≡ n) × (v ≡ w) × (f ≡ g)
path_of-injective scope scope' m n v w f g h =
    let (dirs, rest) =
      slash-injective (scope_dir scope) (scope_dir scope') _ _ (plain scope) (plain scope') h in
    let (ids, behind) =
      slash-injective (show_number m) (show_number n) _ _ (number-plain m) (number-plain n) rest in
    let (subs, names) =
      slash-injective (title_subdirectory v) (title_subdirectory w) (name_of v f) (name_of w g)
        (subdirectory-plain v).0 (subdirectory-plain w).0 behind in
    let (variants, formats) = name_of-injective v w f g names in
    (scopes scope scope' dirs, number-injective m n ids, variants, formats)
  where
    plain : (s : TitleScope) → all is_other (scope_dir s) ≡ true
    plain movie = refl
    plain tv = refl

    scopes : (s t : TitleScope) → scope_dir s ≡ scope_dir t → s ≡ t
    scopes movie movie e = refl
    scopes tv tv e = refl
    scopes movie tv e = absurd (omega (arith, ap length e))
    scopes tv movie e = absurd (omega (arith, ap length e))

pub title_asset-path :
    (scope : TitleScope) (tmdb_id : ℤ) (v : AssetVariant) (f : ImageFormat) (path : Text)
    → title_asset scope tmdb_id v f ≡ ok path
    → (n : ℕ) × (tmdb_id ≡ pos n) × (path ≡ path_of scope n v f)
title_asset-path scope tmdb_id v f path h =
    found tmdb_id (subst (Located scope tmdb_id v f) h (title_asset-Located scope tmdb_id v f))
  where
    found :
        (i : ℤ)
        → Located scope i v f (ok path)
        → (n : ℕ) × (i ≡ pos n) × (path ≡ path_of scope n v f)
    found (negsuc n) e = cc
    found (pos zero) e = cc
    found (pos (suc n)) (numbered, e) = (suc n, refl, e)

-- Two titles' assets with the same path are the same asset: of the same scope, identifier, variant
-- and format.
pub title_asset-injective :
    (scope scope' : TitleScope) (i j : ℤ) (v w : AssetVariant) (f g : ImageFormat) (path : Text)
    → title_asset scope i v f ≡ ok path
    → title_asset scope' j w g ≡ ok path
    → (scope ≡ scope') × (i ≡ j) × (v ≡ w) × (f ≡ g)
title_asset-injective scope scope' i j v w f g path h k =
    let (m, im, pm) = title_asset-path scope i v f path h in
    let (n, jn, pn) = title_asset-path scope' j w g path k in
    let (scopes, ids, variants, formats) =
      path_of-injective scope scope' m n v w f g (sym pm ∙ pn) in
    (scopes, im ∙ ap pos ids ∙ sym jn, variants, formats)
