-- ===== src/Media.antt =====
-- crates/tmdb-media/src/lib.rs: where the media worker puts the images of titles and of reusable
-- entities. A relative path is its text; `push` is `PathBuf::push` for a path that is not empty and
-- does not end with a slash, as all paths here.
pub mod Names
pub mod Distinct
pub mod Paths
pub mod Public
pub mod Assets
use tmdb_mirror.Prelude.{
  ℕ, zero, suc, ◌≡◌, Bool, true, false, not, ◌&&◌, ◌||◌, List, [], ◌∷◌, ◌++◌, ◌==◌, if◌then◌else◌,
  all, Result, ok, err, ◌>>=◌, ℤ, pos, negsuc, Text, codes,
}
use tmdb_mirror.Prelude.Decimal.{show_number, show_padded}

pub data TitleScope : Type 0 where
  movie tv : TitleScope

pub data ReusableEntity : Type 0 where
  person network company collection : ReusableEntity

-- The fields are, where they exist, the season, the episode and the index.
pub data AssetVariant : Type 0 where
  poster backdrop logo profile : ℕ → AssetVariant
  season_poster : ℕ → ℕ → AssetVariant
  episode_thumbnail : ℕ → ℕ → ℕ → AssetVariant

pub data ImageFormat : Type 0 where
  jpeg webp png : ImageFormat

unfoldable pub extension : ImageFormat → Text
extension jpeg = codes "jpg"
extension webp = codes "webp"
extension png = codes "png"

pub data MediaPathError : Type 0 where
  invalid_id invalid_number invalid_digest : MediaPathError

unfoldable pub positive_id : ℤ → Result MediaPathError ℤ
positive_id (pos zero) = err invalid_id
positive_id (pos (suc n)) = ok (pos (suc n))
positive_id (negsuc n) = err invalid_id

unfoldable pub positive_number : ℕ → Result MediaPathError ℕ
positive_number zero = err invalid_number
positive_number (suc n) = ok (suc n)

-- `{}` of an `i64`.
unfoldable pub show_integer : ℤ → Text
show_integer (pos n) = show_number n
show_integer (negsuc n) = b'-' ∷ show_number (suc n)

abbrev pub push : Text → Text → Text
push path part = path ++ (b'/' ∷ part)

-- The end of a file name: a number after a dash, unless it is left out, and the extension.
abbrev pub dotted : Text → Text
dotted ext = b'.' ∷ ext

unfoldable pub numbered_name : Text → ℕ → Text → Result MediaPathError Text
unfolding positive_number
numbered_name prefix index ext = do
  i ← positive_number index
  if i == 1
      then ok (prefix ++ dotted ext)
      else ok (prefix ++ (b'-' ∷ (show_padded i ++ dotted ext)))

unfoldable pub backdrop_name : ℕ → Text → Result MediaPathError Text
unfolding positive_number
backdrop_name index ext = do
  i ← positive_number index
  ok (codes "backdrop-" ++ (show_padded i ++ dotted ext))

unfoldable pub title_subdirectory : AssetVariant → Text
title_subdirectory (poster i) = codes "posters"
title_subdirectory (season_poster s i) = codes "posters"
title_subdirectory (backdrop i) = codes "backdrops"
title_subdirectory (logo i) = codes "logos"
title_subdirectory (profile i) = codes "profiles"
title_subdirectory (episode_thumbnail s e i) = codes "thumbnails"

-- The name of a season behind `season`, before the rest of the base.
unfoldable pub season_base : ℕ → Text → Text
season_base s rest =
    if s == 0 then codes "season-specials" ++ rest else codes "season" ++ (show_padded s ++ rest)

unfoldable pub variant_filename : AssetVariant → ImageFormat → Result MediaPathError Text
variant_filename (poster i) format = numbered_name (codes "poster") i (extension format)
variant_filename (backdrop i) format = backdrop_name i (extension format)
variant_filename (logo i) format = numbered_name (codes "logo") i (extension format)
variant_filename (profile i) format = numbered_name (codes "profile") i (extension format)
variant_filename (season_poster s i) format =
    numbered_name (season_base s (codes "-poster")) i (extension format)
variant_filename (episode_thumbnail s e i) format = do
  n ← positive_number e
  numbered_name (season_base s (codes "-episode" ++ (show_padded n ++ codes "-thumbnails"))) i
      (extension format)

unfoldable pub title_dir : TitleScope → ℤ → Result MediaPathError Text
unfolding positive_id
title_dir scope tmdb_id = do
  id ← positive_id tmdb_id
  elim scope [
    | movie ↦ ok (codes "movies/" ++ show_integer id)
    | tv ↦ ok (codes "tv/" ++ show_integer id)
  ]

unfoldable pub title_asset :
    TitleScope → ℤ → AssetVariant → ImageFormat → Result MediaPathError Text
unfolding title_dir
title_asset scope tmdb_id variant format = do
  path ← title_dir scope tmdb_id
  name ← variant_filename variant format
  ok (push (push path (title_subdirectory variant)) name)

unfoldable pub reusable_directory : ReusableEntity → Text
reusable_directory person = codes "people"
reusable_directory network = codes "networks"
reusable_directory company = codes "companies"
reusable_directory collection = codes "collections"

unfoldable pub reusable_filename :
    ReusableEntity → AssetVariant → ImageFormat → Result MediaPathError Text
unfolding numbered_name
reusable_filename person (profile i) format = numbered_name (codes "profile") i (extension format)
reusable_filename entity variant format = variant_filename variant format

-- The subdirectory of a reusable entity is empty, so that none is pushed.
unfoldable pub reusable_asset :
    ReusableEntity → ℤ → AssetVariant → ImageFormat → Result MediaPathError Text
unfolding positive_id
reusable_asset entity tmdb_id variant format = do
  id ← positive_id tmdb_id
  name ← reusable_filename entity variant format
  ok (push (push (reusable_directory entity) (show_integer id)) name)

-- The parts of a path between its slashes.
unfoldable pub grow : ℕ → List Text → List Text
grow c [] = (c ∷ []) ∷ []
grow c (part ∷ parts) = (c ∷ part) ∷ parts

unfoldable pub parts_of : Text → List Text
unfolding grow
parts_of [] = [] ∷ []
parts_of (c ∷ path) = if c == b'/' then [] ∷ parts_of path else grow c (parts_of path)

-- A part that `Path::components` drops, behind the first one, or that is a normal component
-- without a dot in front. `..` is neither.
abbrev pub is_plain_part : Text → Bool
is_plain_part [] = true
is_plain_part (c ∷ part) = elim part [ [] ↦ true | d ∷ more ↦ not (c == b'.') ]

unfoldable pub is_public_relative : Text → Bool
is_public_relative [] = false
is_public_relative (c ∷ path) =
    not (c == b'.') && not (c == b'/') && all is_plain_part (parts_of (c ∷ path))
