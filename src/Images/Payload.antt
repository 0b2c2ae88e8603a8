-- ===== src/Images/Payload.antt =====
-- apps/tmdb-images/src/image.rs: the payload of an image job and the place of its image.
-- The parsing of URLs is a parameter: what the url crate finds in a text.
pub mod Position
pub mod Place
use tmdb_mirror.Prelude.{
  ℕ, zero, suc, ◌+◌, ◌-◌, ◌≡◌, Bool, true, false, not, ◌&&◌, ◌||◌, List, [], ◌∷◌, ◌++◌, Option,
  none, some, ltb, leb, ◌==◌, if◌then◌else◌, length, any, Result, ok, err, ◌>>=◌, ◌>>◌, reject_if,
  map_err, ℤ, pos, negsuc, leℤ, Text, codes, text_eq, is_control, trim,
}
pub use tmdb_mirror.Prelude.Url.{Url}
use tmdb_mirror.Media.{
  TitleScope, ReusableEntity, AssetVariant, season_poster, episode_thumbnail, ImageFormat, jpeg,
  webp, png, MediaPathError, title_asset, reusable_asset, parts_of,
}

pub data ImageEntityType : Type 0 where
  movie tv season episode person collection company network : ImageEntityType

pub data ImageKind : Type 0 where
  poster backdrop still profile logo other : ImageKind

pub record ImageJobPayload : Type 0 where
  pub schema_version : ℤ
  pub entity_type : ImageEntityType
  pub entity_id : ℤ
  pub kind : ImageKind
  pub tmdb_path : Text
  pub source_url : Text
  pub language : Option Text
  pub source_revision : Option Text
  pub season_number : Option ℕ
  pub episode_number : Option ℕ
  pub title_tmdb_id : Option ℤ
  pub asset_index : ℕ

pub data ImagePayloadError : Type 0 where
  malformed_json unsupported_version invalid_entity_id invalid_tmdb_path : ImagePayloadError
  invalid_source_url invalid_language invalid_source_revision : ImagePayloadError
  invalid_season_number invalid_episode_number invalid_asset_index : ImagePayloadError

abbrev pub is_some {ℓ} : {A : Type ℓ} → Option A → Bool
is_some none = false
is_some (some a) = true

abbrev pub is_empty : Text → Bool
is_empty [] = true
is_empty (c ∷ s) = false

abbrev pub is_one : ℤ → Bool
is_one (pos n) = n == 1
is_one (negsuc n) = false

-- `id <= 0`.
abbrev pub is_not_positive : ℤ → Bool
is_not_positive (pos n) = n == 0
is_not_positive (negsuc n) = true

abbrev pub starts_with_slash : Text → Bool
starts_with_slash [] = false
starts_with_slash (c ∷ s) = c == b'/'

unfoldable pub validate_tmdb_path : Text → Result ImagePayloadError (Unit {0})
validate_tmdb_path value =
    reject_if
      (is_empty value
        || ltb 512 (length value)
        || not (starts_with_slash value)
        || any is_control value
        || any (λ c. c == b'\\') value
        || any (λ part. text_eq part (codes "..") || text_eq part (codes ".")) (parts_of value))
      invalid_tmdb_path

unfoldable pub validate_text : Text → ℕ → ImagePayloadError → Result ImagePayloadError (Unit {0})
validate_text value max_chars error =
    reject_if
      (is_empty value
        || ltb max_chars (length value)
        || any is_control value
        || not (text_eq value (trim value)))
      error

-- The `if let Some(..)` around `validate_text`.
abbrev pub validate_optional :
    Option Text → ℕ → ImagePayloadError → Result ImagePayloadError (Unit {0})
validate_optional none max_chars error = ok tt
validate_optional (some value) max_chars error = validate_text value max_chars error

abbrev pub is_season_or_episode : ImageEntityType → Bool
is_season_or_episode season = true
is_season_or_episode episode = true
is_season_or_episode _ = false

abbrev pub is_episode : ImageEntityType → Bool
is_episode episode = true
is_episode _ = false

abbrev pub is_none_or_not_positive : Option ℤ → Bool
is_none_or_not_positive none = true
is_none_or_not_positive (some id) = is_not_positive id

abbrev pub is_none_or_zero : Option ℕ → Bool
is_none_or_zero none = true
is_none_or_zero (some n) = n == 0

unfoldable pub validate_position : ImageJobPayload → Result ImagePayloadError (Unit {0})
validate_position p = do
  reject_if
      (is_season_or_episode p.entity_type
        && (not (is_some p.season_number) || is_none_or_not_positive p.title_tmdb_id))
      invalid_season_number
  reject_if (is_episode p.entity_type && is_none_or_zero p.episode_number) invalid_episode_number
  reject_if (not (is_episode p.entity_type) && is_some p.episode_number) invalid_episode_number
  reject_if (not (is_season_or_episode p.entity_type) && is_some p.title_tmdb_id)
      invalid_season_number

module _ (parse_url : Text → Option Url) where
  abbrev checked_url : Option Url → Result ImagePayloadError Url
  checked_url none = err invalid_source_url
  checked_url (some url) =
      if not (text_eq url.scheme (codes "http") || text_eq url.scheme (codes "https"))
        || not (is_some url.host_str)
        || not (is_empty url.username)
        || is_some url.password
      then err invalid_source_url
      else ok url

  unfoldable pub parse_source_url : Text → Result ImagePayloadError Url
  parse_source_url value =
      if is_empty value || ltb 2048 (length value)
      then err invalid_source_url
      else checked_url (parse_url value)

  unfoldable pub validate_common : ImageJobPayload → Result ImagePayloadError (Unit {0})
  validate_common p = do
    reject_if (not (is_one p.schema_version)) unsupported_version
    reject_if (is_not_positive p.entity_id) invalid_entity_id
    reject_if (p.asset_index == 0) invalid_asset_index
    validate_tmdb_path p.tmdb_path
    source ← parse_source_url p.source_url
    reject_if (is_some source.fragment) invalid_source_url
    validate_optional p.language 32 invalid_language
    validate_optional p.source_revision 128 invalid_source_revision

  unfoldable pub validate : ImageJobPayload → Result ImagePayloadError (Unit {0})
  validate p = validate_common p >> validate_position p

  unfoldable pub payload_new :
      ImageEntityType
      → ℤ
      → ImageKind
      → Text
      → Text
      → Option Text
      → Option Text
      → Result ImagePayloadError ImageJobPayload
  payload_new entity_type entity_id kind tmdb_path source_url language source_revision =
      let payload : ImageJobPayload = record {
        schema_version = pos 1;
        entity_type = entity_type;
        entity_id = entity_id;
        kind = kind;
        tmdb_path = tmdb_path;
        source_url = source_url;
        language = language;
        source_revision = source_revision;
        season_number = none;
        episode_number = none;
        title_tmdb_id = none;
        asset_index = 1;
      } in
      validate_common payload
      >> (if is_season_or_episode entity_type then ok tt else validate_position payload)
      >> ok payload

  unfoldable pub with_tv_position :
      ImageJobPayload → ℤ → ℕ → Option ℕ → Result ImagePayloadError ImageJobPayload
  with_tv_position p title_tmdb_id season_number episode_number =
      let payload : ImageJobPayload = record p {
        title_tmdb_id = some title_tmdb_id;
        season_number = some season_number;
        episode_number = episode_number;
      } in
      validate payload >> ok payload

  unfoldable pub with_asset_index : ImageJobPayload → ℕ → Result ImagePayloadError ImageJobPayload
  with_asset_index p asset_index =
      let payload : ImageJobPayload = record p { asset_index = asset_index } in
      validate payload >> ok payload

abbrev pub format_of : Text → Result (Unit {0}) ImageFormat
format_of mime_type =
    if text_eq mime_type (codes "image/webp")
    then ok webp
    else if text_eq mime_type (codes "image/png")
    then ok png
    else if text_eq mime_type (codes "image/jpeg")
    then ok jpeg
    else err tt

-- `ok_or(())?`.
abbrev pub ok_or_unit {ℓ} : {A : Type ℓ} → Option A → Result (Unit {0}) A
ok_or_unit none = err tt
ok_or_unit (some a) = ok a

-- The variant by kind, entity type, season and episode number, and index.
unfoldable pub variant_of :
    ImageKind → ImageEntityType → Option ℕ → Option ℕ → ℕ → Result (Unit {0}) AssetVariant
variant_of poster season s e i = ok_or_unit s >>= λ n. ok (season_poster n i)
variant_of poster entity s e i = ok (AssetVariant.poster i)
variant_of other season s e i = ok_or_unit s >>= λ n. ok (season_poster n i)
variant_of other entity s e i = ok (AssetVariant.poster i)
variant_of backdrop entity s e i = ok (AssetVariant.backdrop i)
variant_of profile entity s e i = ok (AssetVariant.profile i)
variant_of logo entity s e i = ok (AssetVariant.logo i)
variant_of still season s e i = ok_or_unit s >>= λ n. ok (season_poster n i)
variant_of still episode s e i =
    ok_or_unit s >>= λ n. (ok_or_unit e >>= λ m. ok (episode_thumbnail n m i))
variant_of still entity s e i = err tt

-- `map_err(|_| ())`.
abbrev pub forget : Result MediaPathError Text → Result (Unit {0}) Text
forget r = map_err (λ e. tt) r

-- The path by entity type, identifier and title's identifier.
unfoldable pub place_of :
    ImageEntityType → ℤ → Option ℤ → AssetVariant → ImageFormat → Result (Unit {0}) Text
place_of movie id title v f = forget (title_asset TitleScope.movie id v f)
place_of tv id title v f = forget (title_asset TitleScope.tv id v f)
place_of season id title v f = ok_or_unit title >>= λ t. forget (title_asset TitleScope.tv t v f)
place_of episode id title v f = ok_or_unit title >>= λ t. forget (title_asset TitleScope.tv t v f)
place_of person id title v f = forget (reusable_asset ReusableEntity.person id v f)
place_of network id title v f = forget (reusable_asset ReusableEntity.network id v f)
place_of company id title v f = forget (reusable_asset ReusableEntity.company id v f)
place_of collection id title v f = forget (reusable_asset ReusableEntity.collection id v f)

unfoldable pub semantic_path : ImageJobPayload → Text → Result (Unit {0}) Text
semantic_path p mime_type = do
  format ← format_of mime_type
  variant ← variant_of p.kind p.entity_type p.season_number p.episode_number p.asset_index
  place_of p.entity_type p.entity_id p.title_tmdb_id variant format
