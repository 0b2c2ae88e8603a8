-- ===== src/Tests/Payload.antt =====
-- Image payloads at concrete inputs.
use tmdb_mirror.Prelude.{
  ℕ, ◌≡◌, refl, [], Option, some, none, if◌then◌else◌, codes, ok, err, ℤ, pos, Text, text_eq,
  is_control, is_whitespace, trim, trim_start, trim_end, inl,
}
use tmdb_mirror.Media.{parts_of, grow}
use tmdb_mirror.Images.Payload.{
  ImageEntityType, ImageKind, ImageJobPayload, ImagePayloadError, Url, validate_tmdb_path,
  validate_text, validate_position, validate_common, validate, parse_source_url, with_tv_position,
  with_asset_index, semantic_path,
}
use tmdb_mirror.Images.Payload.Position.{IsReady, builders-IsReady}
use tmdb_mirror.Images.Payload.Place.{IsServed, semantic_path-IsServed}

-- A parser that knows one text.
abbrev pub parse_url : Text → Option Url
parse_url value =
    if text_eq value (codes "https://image.tmdb.org/x.jpg")
    then some (record {
      scheme = codes "https";
      host_str = some (codes "image.tmdb.org");
      username = [];
      password = none;
      query = none;
      fragment = none;
    })
    else none

abbrev pub thumbnail : ImageJobPayload
thumbnail = record {
  schema_version = pos 1;
  entity_type = ImageEntityType.episode;
  entity_id = pos 62085;
  kind = ImageKind.still;
  tmdb_path = codes "/x.jpg";
  source_url = codes "https://image.tmdb.org/x.jpg";
  language = some (codes "en");
  source_revision = none;
  season_number = some 1;
  episode_number = some 1;
  title_tmdb_id = some (pos 1396);
  asset_index = 1;
}

thumbnail-valid : validate parse_url thumbnail ≡ ok tt
unfolding validate validate_common validate_position validate_tmdb_path parse_source_url
    validate_text parts_of grow text_eq is_control is_whitespace trim trim_start trim_end
thumbnail-valid = refl

-- Parents in the path are refused.
paths :
    (validate_tmdb_path (codes "/a/../b.jpg") ≡ err ImagePayloadError.invalid_tmdb_path)
    × (validate_tmdb_path (codes "/a..b.jpg") ≡ ok tt)
unfolding validate_tmdb_path parts_of grow text_eq is_control
paths = (refl, refl)

builders-IsReady_example :
    ((title : ℤ) (s : ℕ) (e : Option ℕ)
      → with_tv_position parse_url thumbnail title s e ≡ ok thumbnail
      → (thumbnail ≡ record thumbnail {
        title_tmdb_id = some title;
        season_number = some s;
        episode_number = e;
      })
        × IsReady thumbnail)
    × ((i : ℕ)
        → with_asset_index parse_url thumbnail i ≡ ok thumbnail
        → (thumbnail ≡ record thumbnail { asset_index = i }) × IsReady thumbnail)
builders-IsReady_example = builders-IsReady parse_url thumbnail thumbnail

semantic_path-IsServed_example : IsServed (semantic_path thumbnail (codes "image/webp"))
semantic_path-IsServed_example =
    semantic_path-IsServed parse_url thumbnail (codes "image/webp") thumbnail-valid refl (inl refl)
