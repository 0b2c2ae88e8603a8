-- ===== src/Images/Payload/Place.antt =====
-- apps/tmdb-images/src/image.rs: the image of a validated payload has a place.
use tmdb_mirror.Prelude.{
  ℕ, suc, ◌≡◌, ◌<◌, refl, ap, ◌⊎◌, inl, inr, true, Option, none, some, Result, ok, ℤ, pos, arith,
  Text, codes, text_eq,
}
use tmdb_mirror.Media.{
  TitleScope, ReusableEntity, AssetVariant, ImageFormat, is_public_relative, season_poster,
  episode_thumbnail, jpeg, png, webp,
}
use tmdb_mirror.Media.Names.{IsNumbered}
use tmdb_mirror.Media.Assets.{Asset, title, reusable, place, IsPlaceable, place-total, place-public}
use tmdb_mirror.Images.Payload.{
  ImageEntityType, movie, tv, season, episode, person, collection, company, network, ImageKind,
  poster, backdrop, still, profile, logo, other, ImageJobPayload, Url, validate, variant_of,
  place_of, semantic_path, format_of, forget, is_season_or_episode,
}
use tmdb_mirror.Images.Payload.Position.{IsAt, validate-IsReady}

-- The result is a path that the media server may serve.
abbrev pub IsServed : Result (Unit {0}) Text → Type 0
IsServed r = (path : Text) × (r ≡ ok path) × (is_public_relative path ≡ true)

served : (a : Asset) → IsPlaceable a → IsServed (forget (place a))
served a h = let (path, same) = place-total a h in (path, ap forget same, place-public a path same)

place_of-IsServed :
    (x : ImageEntityType) (id : ℤ) (s e : Option ℕ) (t : Option ℤ) (v : AssetVariant)
    (f : ImageFormat)
    → ((n : ℕ) × (id ≡ pos (suc n)))
    → IsAt x s e t
    → IsNumbered v
    → IsServed (place_of x id t v f)
unfolding place_of
place_of-IsServed movie id s e t v f i at n = served (title TitleScope.movie id v f) (i, n)
place_of-IsServed tv id s e t v f i at n = served (title TitleScope.tv id v f) (i, n)
place_of-IsServed person id s e t v f i at n = served (reusable ReusableEntity.person id v f) (i, n)
place_of-IsServed network id s e t v f i at n =
    served (reusable ReusableEntity.network id v f) (i, n)
place_of-IsServed company id s e t v f i at n =
    served (reusable ReusableEntity.company id v f) (i, n)
place_of-IsServed collection id s e t v f i at n =
    served (reusable ReusableEntity.collection id v f) (i, n)
place_of-IsServed season id s e none v f i (a, (m, b), c) n = cc
place_of-IsServed season id s e (some t) v f i (a, (m, b), c) n =
    served (title TitleScope.tv t v f) ((m, cc), n)
place_of-IsServed episode id s e none v f i (a, (m, b), c) n = cc
place_of-IsServed episode id s e (some t) v f i (a, (m, b), c) n =
    served (title TitleScope.tv t v f) ((m, cc), n)

-- The kinds and entities that have a variant: stills are of seasons and episodes.
abbrev pub IsDepicted : ImageKind → ImageEntityType → Type 0
IsDepicted still x = is_season_or_episode x ≡ true
IsDepicted kind x = Unit

variant_of-IsNumbered :
    (k : ImageKind) (x : ImageEntityType) (s e : Option ℕ) (t : Option ℤ) (i : ℕ)
    → 0 < i
    → IsAt x s e t
    → IsDepicted k x
    → (v : AssetVariant) × (variant_of k x s e i ≡ ok v) × IsNumbered v
unfolding variant_of
variant_of-IsNumbered backdrop x s e t i h at d = (AssetVariant.backdrop i, refl, h)
variant_of-IsNumbered profile x s e t i h at d = (AssetVariant.profile i, refl, h)
variant_of-IsNumbered logo x s e t i h at d = (AssetVariant.logo i, refl, h)
variant_of-IsNumbered k season none e t i h (a, b, c) d = absurd (a refl)
variant_of-IsNumbered k episode none e t i h (a, b, c) d = absurd (a refl)
variant_of-IsNumbered still episode (some s) none t i h (a, b, (n, c)) d = cc
variant_of-IsNumbered still episode (some s) (some e) t i h (a, b, (n, c)) d =
    (episode_thumbnail s e i, refl, (ground arith, h))
variant_of-IsNumbered still season (some s) e t i h at d = (season_poster s i, refl, h)
variant_of-IsNumbered poster season (some s) e t i h at d = (season_poster s i, refl, h)
variant_of-IsNumbered other season (some s) e t i h at d = (season_poster s i, refl, h)
variant_of-IsNumbered poster x s e t i h at d = (AssetVariant.poster i, refl, h)
variant_of-IsNumbered other x s e t i h at d = (AssetVariant.poster i, refl, h)
variant_of-IsNumbered still x s e t i h at d = cc

-- The MIME types that the downloader accepts.
abbrev pub IsImageMime : Text → Type 0
IsImageMime mime =
    (mime ≡ codes "image/webp") ⊎ (mime ≡ codes "image/png") ⊎ (mime ≡ codes "image/jpeg")

format_of-ok : (mime : Text) → IsImageMime mime → (f : ImageFormat) × (format_of mime ≡ ok f)
format_of-ok mime (inl h) = (webp, rw h (unfold text_eq in refl))
format_of-ok mime (inr (inl h)) = (png, rw h (unfold text_eq in refl))
format_of-ok mime (inr (inr h)) = (jpeg, rw h (unfold text_eq in refl))

-- For a validated payload whose kind is not a still, or is one of a season or an episode, and for
-- each of the three MIME types, the image has a path, and it is one that the media server may serve.
pub semantic_path-IsServed :
    (parse_url : Text → Option Url) (p : ImageJobPayload) (mime : Text)
    → validate parse_url p ≡ ok tt
    → IsDepicted p.kind p.entity_type
    → IsImageMime mime
    → IsServed (semantic_path p mime)
unfolding semantic_path
semantic_path-IsServed parse_url p mime valid depicted image =
    let r = validate-IsReady parse_url p valid in
    let (v, named, numbered) =
      variant_of-IsNumbered p.kind p.entity_type p.season_number p.episode_number p.title_tmdb_id
        p.asset_index r.indexed r.positioned depicted in
    let (f, format) = format_of-ok mime image in
    rw (format, named)
      (place_of-IsServed p.entity_type p.entity_id p.season_number p.episode_number p.title_tmdb_id
        v f r.identified r.positioned numbered)
