-- ===== src/Media/Names.antt =====
-- crates/tmdb-media/src/lib.rs: the names of image files.
use mathlib.Core.List.{append_assoc}
use tmdb_mirror.Prelude.{
  ℕ, zero, suc, ◌<◌, ◌≡◌, refl, ap, ◌∙◌, ◌∷◌, ◌++◌, ◌==◌, if◌then◌else◌, Result, ok, err, Text,
  codes, arith, Bool-cases, inl, inr,
}
use tmdb_mirror.Prelude.Decimal.{show_padded}
use tmdb_mirror.Media.{
  AssetVariant, poster, backdrop, logo, profile, season_poster, episode_thumbnail, ImageFormat,
  extension, MediaPathError, invalid_number, numbered_name, positive_number, backdrop_name,
  season_base, variant_filename, dotted,
}

-- The end of a name: the number, if it is not 1, and the extension.
unfoldable pub tail_of : ℕ → ImageFormat → Text
tail_of i f =
    if i == 1 then dotted (extension f) else b'-' ∷ (show_padded i ++ dotted (extension f))

-- A season behind `season`.
unfoldable pub season_code : ℕ → Text → Text
season_code s rest = if s == 0 then codes "-specials" ++ rest else show_padded s ++ rest

-- The name of a file, whatever the numbers are.
abbrev pub name_of : AssetVariant → ImageFormat → Text
name_of (poster i) f = codes "poster" ++ tail_of i f
name_of (backdrop i) f = codes "backdrop-" ++ (show_padded i ++ dotted (extension f))
name_of (logo i) f = codes "logo" ++ tail_of i f
name_of (profile i) f = codes "profile" ++ tail_of i f
name_of (season_poster s i) f = codes "season" ++ season_code s (codes "-poster" ++ tail_of i f)
name_of (episode_thumbnail s e i) f =
    codes "season"
    ++ season_code s (codes "-episode" ++ (show_padded e ++ (codes "-thumbnails" ++ tail_of i f)))

-- The numbers that the code accepts: from 1 on, but for seasons.
abbrev pub IsNumbered : AssetVariant → Type 0
IsNumbered (poster i) = 0 < i
IsNumbered (backdrop i) = 0 < i
IsNumbered (logo i) = 0 < i
IsNumbered (profile i) = 0 < i
IsNumbered (season_poster s i) = 0 < i
IsNumbered (episode_thumbnail s e i) = (0 < e) × (0 < i)

-- What a computation of a name should give: the name, or an error for a wrong number.
abbrev pub Named : AssetVariant → ImageFormat → Result MediaPathError Text → Type 0
Named v f (ok name) = IsNumbered v × (name ≡ name_of v f)
Named v f (err e) = (¬ IsNumbered v) × (e ≡ invalid_number)

ok-injective : {r : Result MediaPathError Text} {s t : Text} → ok s ≡ r → r ≡ ok t → s ≡ t
ok-injective p q = cc

numbered_name-eq :
    (prefix : Text) (i : ℕ) (f : ImageFormat)
    → numbered_name prefix (suc i) (extension f) ≡ ok (prefix ++ tail_of (suc i) f)
unfolding numbered_name tail_of positive_number
numbered_name-eq prefix i f = elim (Bool-cases (suc i == 1)) [
  | inl one ↦ ground arith
  | inr more ↦ ground arith
]

numbered_name-zero : (prefix ext : Text) → numbered_name prefix 0 ext ≡ err invalid_number
unfolding numbered_name positive_number
numbered_name-zero prefix ext = refl

season_base-append :
    (s : ℕ) (rest more : Text)
    → season_base s rest ++ more ≡ codes "season" ++ season_code s (rest ++ more)
unfolding season_base season_code
season_base-append s rest more = ground (arith, append_assoc (show_padded s) rest more)

named :
    (v : AssetVariant) (f : ImageFormat) (name : Text) (r : Result MediaPathError Text)
    → IsNumbered v
    → name ≡ name_of v f
    → r ≡ ok name
    → Named v f r
named v f name (ok other) n e q = (n, ok-injective refl q ∙ e)
named v f name (err x) n e q = cc

refused :
    (v : AssetVariant) (f : ImageFormat) (r : Result MediaPathError Text)
    → (¬ IsNumbered v)
    → r ≡ err invalid_number
    → Named v f r
refused v f (ok name) n q = cc
refused v f (err x) n q = (n, cc)

pub variant_filename-Named : (v : AssetVariant) (f : ImageFormat) → Named v f (variant_filename v f)
unfolding variant_filename positive_number
variant_filename-Named (poster zero) f =
    refused (poster zero) f (variant_filename (poster zero) f) (λ h. omega arith)
      (numbered_name-zero (codes "poster") (extension f))
variant_filename-Named (poster (suc i)) f =
    named (poster (suc i)) f (name_of (poster (suc i)) f) (variant_filename (poster (suc i)) f)
      (omega arith) refl (numbered_name-eq (codes "poster") i f)
variant_filename-Named (logo zero) f =
    refused (logo zero) f (variant_filename (logo zero) f) (λ h. omega arith)
      (numbered_name-zero (codes "logo") (extension f))
variant_filename-Named (logo (suc i)) f =
    named (logo (suc i)) f (name_of (logo (suc i)) f) (variant_filename (logo (suc i)) f)
      (omega arith) refl (numbered_name-eq (codes "logo") i f)
variant_filename-Named (profile zero) f =
    refused (profile zero) f (variant_filename (profile zero) f) (λ h. omega arith)
      (numbered_name-zero (codes "profile") (extension f))
variant_filename-Named (profile (suc i)) f =
    named (profile (suc i)) f (name_of (profile (suc i)) f) (variant_filename (profile (suc i)) f)
      (omega arith) refl (numbered_name-eq (codes "profile") i f)
variant_filename-Named (backdrop zero) f = unfold backdrop_name in (λ h. omega arith, refl)
variant_filename-Named (backdrop (suc i)) f = unfold backdrop_name in (omega arith, refl)
variant_filename-Named (season_poster s zero) f =
    refused (season_poster s zero) f (variant_filename (season_poster s zero) f) (λ h. omega arith)
      (numbered_name-zero (season_base s (codes "-poster")) (extension f))
variant_filename-Named (season_poster s (suc i)) f =
    named (season_poster s (suc i)) f (season_base s (codes "-poster") ++ tail_of (suc i) f)
      (variant_filename (season_poster s (suc i)) f) (omega arith)
      (season_base-append s (codes "-poster") (tail_of (suc i) f))
      (numbered_name-eq (season_base s (codes "-poster")) i f)
variant_filename-Named (episode_thumbnail s zero i) f = (λ (e, h). omega arith, refl)
variant_filename-Named (episode_thumbnail s (suc e) zero) f =
    refused (episode_thumbnail s (suc e) zero) f
      (variant_filename (episode_thumbnail s (suc e) zero) f) (λ (a, h). omega arith)
      (numbered_name-zero
        (season_base s (codes "-episode" ++ (show_padded (suc e) ++ codes "-thumbnails")))
        (extension f))
variant_filename-Named (episode_thumbnail s (suc e) (suc i)) f =
    let base = codes "-episode" ++ (show_padded (suc e) ++ codes "-thumbnails") in
    named (episode_thumbnail s (suc e) (suc i)) f (season_base s base ++ tail_of (suc i) f)
      (variant_filename (episode_thumbnail s (suc e) (suc i)) f) (omega arith, omega arith)
      (season_base-append s base (tail_of (suc i) f)
        ∙ ap (λ t. codes "season" ++ season_code s (codes "-episode" ++ t))
            (append_assoc (show_padded (suc e)) (codes "-thumbnails") (tail_of (suc i) f)))
      (numbered_name-eq (season_base s base) i f)
