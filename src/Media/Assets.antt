-- ===== src/Media/Assets.antt =====
-- crates/tmdb-media/src/lib.rs: the assets of titles and of reusable entities together.
use mathlib.Core.Path.{subst}
use mathlib.Core.List.{append_assoc}
use tmdb_mirror.Prelude.{
  ℕ, zero, suc, ◌≡◌, refl, sym, ap, ◌∙◌, true, ◌∷◌, Result, ok, err, ◌>>=◌, Text, arith, all,
  length, ℤ, pos, negsuc,
}
use tmdb_mirror.Prelude.Decimal.{show_number}
use tmdb_mirror.Media.{
  TitleScope, ReusableEntity, person, network, company, collection, AssetVariant, poster, backdrop,
  logo, profile, season_poster, episode_thumbnail, ImageFormat, MediaPathError, invalid_id,
  invalid_number, positive_id, show_integer, variant_filename, title_asset, reusable_asset,
  reusable_filename, reusable_directory, parts_of, is_plain_part, is_public_relative, push,
}
use tmdb_mirror.Media.Names.{name_of, IsNumbered, Named, variant_filename-Named}
use tmdb_mirror.Media.Distinct.{head_code, is_other, name_of-plain, name_of-injective}
use tmdb_mirror.Media.Paths.{
  scope_dir, slashed, title_asset-path, Located, title_asset-Located, title_asset-injective,
  slash-injective, number-plain, number-injective,
}
use tmdb_mirror.Media.Public.{
  parts-cons, parts-one, number-plain_part, title_asset-public, dir-plain,
}

-- An asset, by the arguments of the function that places it.
pub data Asset : Type 0 where
  title : TitleScope → ℤ → AssetVariant → ImageFormat → Asset
  reusable : ReusableEntity → ℤ → AssetVariant → ImageFormat → Asset

abbrev pub place : Asset → Result MediaPathError Text
place (title scope i v f) = title_asset scope i v f
place (reusable entity i v f) = reusable_asset entity i v f

reusable_filename-Named :
    (entity : ReusableEntity) (v : AssetVariant) (f : ImageFormat)
    → Named v f (reusable_filename entity v f)
unfolding reusable_filename
reusable_filename-Named person (profile i) f =
    unfold variant_filename in variant_filename-Named (profile i) f
reusable_filename-Named person (poster i) f = variant_filename-Named (poster i) f
reusable_filename-Named person (backdrop i) f = variant_filename-Named (backdrop i) f
reusable_filename-Named person (logo i) f = variant_filename-Named (logo i) f
reusable_filename-Named person (season_poster s i) f = variant_filename-Named (season_poster s i) f
reusable_filename-Named person (episode_thumbnail s e i) f =
    variant_filename-Named (episode_thumbnail s e i) f
reusable_filename-Named network v f = variant_filename-Named v f
reusable_filename-Named company v f = variant_filename-Named v f
reusable_filename-Named collection v f = variant_filename-Named v f

abbrev reusable_path : ReusableEntity → ℕ → AssetVariant → ImageFormat → Text
reusable_path entity n v f =
    slashed (reusable_directory entity) (slashed (show_number n) (name_of v f))

-- What a computation of a path should give.
abbrev pub Filed :
    ReusableEntity → ℤ → AssetVariant → ImageFormat → Result MediaPathError Text → Type 0
Filed entity (negsuc n) v f r = r ≡ err invalid_id
Filed entity (pos zero) v f r = r ≡ err invalid_id
Filed entity (pos (suc n)) v f (ok path) = IsNumbered v × (path ≡ reusable_path entity (suc n) v f)
Filed entity (pos (suc n)) v f (err e) = (¬ IsNumbered v) × (e ≡ invalid_number)

filed :
    (entity : ReusableEntity) (n : ℕ) (v : AssetVariant) (f : ImageFormat)
    (r : Result MediaPathError Text)
    → Named v f r
    → Filed entity
        (pos (suc n))
        v
        f
        (r >>= λ name. ok (push (push (reusable_directory entity) (show_number (suc n))) name))
filed entity n v f (err e) h = h
filed entity n v f (ok name) (numbered, same) = (
  numbered,
  append_assoc (reusable_directory entity) (b'/' ∷ show_number (suc n)) (b'/' ∷ name)
      ∙ ap (λ t. slashed (reusable_directory entity) (slashed (show_number (suc n)) t)) same,
)

reusable_asset-Filed :
    (entity : ReusableEntity) (tmdb_id : ℤ) (v : AssetVariant) (f : ImageFormat)
    → Filed entity tmdb_id v f (reusable_asset entity tmdb_id v f)
unfolding reusable_asset positive_id show_integer
reusable_asset-Filed entity (negsuc n) v f = refl
reusable_asset-Filed entity (pos zero) v f = refl
reusable_asset-Filed entity (pos (suc n)) v f =
    filed entity n v f (reusable_filename entity v f) (reusable_filename-Named entity v f)

reusable_asset-path :
    (entity : ReusableEntity) (tmdb_id : ℤ) (v : AssetVariant) (f : ImageFormat) (path : Text)
    → reusable_asset entity tmdb_id v f ≡ ok path
    → (n : ℕ) × (tmdb_id ≡ pos n) × (path ≡ reusable_path entity n v f)
reusable_asset-path entity tmdb_id v f path h =
    found tmdb_id (subst (Filed entity tmdb_id v f) h (reusable_asset-Filed entity tmdb_id v f))
  where
    found :
        (i : ℤ)
        → Filed entity i v f (ok path)
        → (n : ℕ) × (i ≡ pos n) × (path ≡ reusable_path entity n v f)
    found (negsuc n) e = cc
    found (pos zero) e = cc
    found (pos (suc n)) (numbered, e) = (suc n, refl, e)

directory-plain :
    (entity : ReusableEntity)
    → (all is_other (reusable_directory entity) ≡ true)
      × (is_plain_part (reusable_directory entity) ≡ true)
unfolding reusable_directory
directory-plain person = (refl, refl)
directory-plain network = (refl, refl)
directory-plain company = (refl, refl)
directory-plain collection = (refl, refl)

-- The lengths of the directories' names tell them apart.
directory-injective :
    (e e' : ReusableEntity) → reusable_directory e ≡ reusable_directory e' → e ≡ e'
unfolding reusable_directory
directory-injective person person h = refl
directory-injective network network h = refl
directory-injective company company h = refl
directory-injective collection collection h = refl
directory-injective e e' h = absurd (omega (arith, ap length h))

directories-apart :
    (scope : TitleScope) (e : ReusableEntity) → ¬ (scope_dir scope ≡ reusable_directory e)
unfolding reusable_directory
directories-apart scope e h = grind (arith, ap head_code h)

apart :
    (scope : TitleScope) (e : ReusableEntity) (i j : ℤ) (v w : AssetVariant) (f g : ImageFormat)
    (path : Text)
    → title_asset scope i v f ≡ ok path
    → ¬ (reusable_asset e j w g ≡ ok path)
apart scope e i j v w f g path h k =
    let (m, im, pm) = title_asset-path scope i v f path h in
    let (n, jn, pn) = reusable_asset-path e j w g path k in
    let (dirs, rest) =
      slash-injective (scope_dir scope) (reusable_directory e) _ _ (dir-plain scope).0
        (directory-plain e).0 (sym pm ∙ pn) in
    directories-apart scope e dirs

reusable_asset-injective :
    (e e' : ReusableEntity) (i j : ℤ) (v w : AssetVariant) (f g : ImageFormat) (path : Text)
    → reusable_asset e i v f ≡ ok path
    → reusable_asset e' j w g ≡ ok path
    → reusable e i v f ≡ reusable e' j w g
reusable_asset-injective e e' i j v w f g path h k =
    let (m, im, pm) = reusable_asset-path e i v f path h in
    let (n, jn, pn) = reusable_asset-path e' j w g path k in
    let (dirs, rest) =
      slash-injective (reusable_directory e) (reusable_directory e') _ _ (directory-plain e).0
        (directory-plain e').0 (sym pm ∙ pn) in
    let (ids, names) =
      slash-injective (show_number m) (show_number n) (name_of v f) (name_of w g) (number-plain m)
        (number-plain n) rest in
    let (variants, formats) = name_of-injective v w f g names in
    let entities = directory-injective e e' dirs in
    let numbers = ap pos (number-injective m n ids) in
    cc (entities, numbers, im, jn, variants, formats)

-- Two assets that are placed at the same path, of titles or of reusable entities, are the same
-- asset: of the same scope or entity, identifier, variant and format.
pub place-injective : (a b : Asset) (path : Text) → place a ≡ ok path → place b ≡ ok path → a ≡ b
place-injective (title s i v f) (title s' j w g) path h k =
    let (scopes, ids, variants, formats) = title_asset-injective s s' i j v w f g path h k in
    cc (scopes, ids, variants, formats)
place-injective (title s i v f) (reusable e j w g) path h k =
    absurd (apart s e i j v w f g path h k)
place-injective (reusable e j w g) (title s i v f) path h k =
    absurd (apart s e i j v w f g path k h)
place-injective (reusable e i v f) (reusable e' j w g) path h k =
    reusable_asset-injective e e' i j v w f g path h k

public-parts :
    (entity : ReusableEntity) (rest : Text)
    → all is_plain_part (parts_of (slashed (reusable_directory entity) rest)) ≡ true
    → is_public_relative (slashed (reusable_directory entity) rest) ≡ true
unfolding is_public_relative reusable_directory
public-parts person rest h = h
public-parts network rest h = h
public-parts company rest h = h
public-parts collection rest h = h

reusable_path-public :
    (entity : ReusableEntity) (n : ℕ) (v : AssetVariant) (f : ImageFormat)
    → is_public_relative (reusable_path entity n v f) ≡ true
reusable_path-public entity n v f =
    let (name, name') = name_of-plain v f in
    let (dir, dir') = directory-plain entity in
    public-parts entity (slashed (show_number n) (name_of v f)) (
      parts-cons (reusable_directory entity) _ dir dir' (
        parts-cons (show_number n) (name_of v f) (number-plain n) (number-plain_part n)
          (parts-one (name_of v f) name name')))

-- Every path at which an asset is placed is one that the media server may serve: relative, and
-- without a part that starts with a dot.
pub place-public : (a : Asset) (path : Text) → place a ≡ ok path → is_public_relative path ≡ true
place-public (title scope i v f) path h = title_asset-public scope i v f path h
place-public (reusable entity i v f) path h =
    let (n, same, p) = reusable_asset-path entity i v f path h in
    rw p (reusable_path-public entity n v f)

-- The numbers that the code accepts.
abbrev pub IsPlaceable : Asset → Type 0
IsPlaceable (title scope i v f) = ((n : ℕ) × (i ≡ pos (suc n))) × IsNumbered v
IsPlaceable (reusable entity i v f) = ((n : ℕ) × (i ≡ pos (suc n))) × IsNumbered v

-- An asset with an identifier, an index and an episode from 1 on is placed somewhere.
pub place-total : (a : Asset) → IsPlaceable a → (path : Text) × (place a ≡ ok path)
place-total (title scope i v f) ((n, same), numbered) =
    rw same (
      some_path (title_asset scope (pos (suc n)) v f) (title_asset-Located scope (pos (suc n)) v f))
  where
    some_path :
        (r : Result MediaPathError Text)
        → Located scope (pos (suc n)) v f r
        → (path : Text) × (r ≡ ok path)
    some_path (ok path) h = (path, refl)
    some_path (err e) (h, k) = absurd (h numbered)
place-total (reusable entity i v f) ((n, same), numbered) = rw same (
    some_path (reusable_asset entity (pos (suc n)) v f)
      (reusable_asset-Filed entity (pos (suc n)) v f))
  where
    some_path :
        (r : Result MediaPathError Text)
        → Filed entity (pos (suc n)) v f r
        → (path : Text) × (r ≡ ok path)
    some_path (ok path) h = (path, refl)
    some_path (err e) (h, k) = absurd (h numbered)
