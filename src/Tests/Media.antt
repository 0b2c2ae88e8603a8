-- ===== src/Tests/Media.antt =====
-- The media layout at concrete inputs.
use tmdb_mirror.Prelude.{◌≡◌, refl, true, false, codes, ok, err, pos, negsuc}
use tmdb_mirror.Prelude.Decimal.{show_number, show_padded, show_onto}
use tmdb_mirror.Media.{
  movie, tv, person, poster, profile, backdrop, season_poster, episode_thumbnail, jpeg, webp, png,
  invalid_id, invalid_number, title_asset, reusable_asset, is_public_relative, positive_id,
  positive_number, show_integer, title_dir, title_subdirectory, variant_filename, numbered_name,
  backdrop_name, season_base, extension, reusable_directory, reusable_filename, parts_of, grow,
}
use tmdb_mirror.Media.Paths.{Located, title_asset-Located}
use tmdb_mirror.Media.Assets.{Asset, reusable, place-injective, place-public}

titles :
    (title_asset movie (pos 603) (poster 1) jpeg ≡ ok (codes "movies/603/posters/poster.jpg"))
    × (title_asset tv (pos 7) (episode_thumbnail 0 3 12) webp
        ≡ ok (codes "tv/7/thumbnails/season-specials-episode03-thumbnails-12.webp"))
    × (title_asset tv (pos 7) (season_poster 2 2) png
        ≡ ok (codes "tv/7/posters/season02-poster-02.png"))
    × (title_asset movie (negsuc 0) (poster 1) jpeg ≡ err invalid_id)
    × (title_asset movie (pos 1) (backdrop 0) jpeg ≡ err invalid_number)
unfolding title_asset title_dir positive_id positive_number show_integer show_number show_padded
    show_onto title_subdirectory variant_filename numbered_name backdrop_name season_base extension
titles = (refl, refl, refl, refl, refl)

reusables : reusable_asset person (pos 31) (profile 1) jpeg ≡ ok (codes "people/31/profile.jpg")
unfolding reusable_asset positive_id positive_number show_integer show_number show_onto
    variant_filename numbered_name extension reusable_directory reusable_filename
reusables = refl

-- Hidden parts and parents are refused, also behind a part that is not.
publics :
    (is_public_relative (codes "movies/603/posters/poster.jpg") ≡ true)
    × (is_public_relative (codes "movies/../etc") ≡ false)
    × (is_public_relative (codes "movies/.env") ≡ false)
    × (is_public_relative (codes "/etc") ≡ false)
    × (is_public_relative (codes "a/./b") ≡ true)
unfolding is_public_relative parts_of grow
publics = (refl, refl, refl, refl, refl)

abbrev face : Asset
face = reusable person (pos 31) (profile 1) jpeg

place-injective_example : face ≡ face
place-injective_example =
    place-injective face face (codes "people/31/profile.jpg") reusables reusables

place-public_example : is_public_relative (codes "people/31/profile.jpg") ≡ true
place-public_example = place-public face (codes "people/31/profile.jpg") reusables

title_asset-Located_example :
    Located movie (pos 603) (poster 0) jpeg (title_asset movie (pos 603) (poster 0) jpeg)
title_asset-Located_example = title_asset-Located movie (pos 603) (poster 0) jpeg
