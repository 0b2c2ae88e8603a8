-- ===== src/Domain.antt =====
-- crates/tmdb-domain/src/media.rs: the media type and its text.
use tmdb_mirror.Prelude.{
  ◌≡◌, refl, ◌↔◌, Result, ok, err, Text, codes, text_eq, text_eq_iff, if◌then◌else◌, arith,
}

pub data MediaType : Type 0 where
  movie tv : MediaType

-- `Display`.
unfoldable pub media_type_text : MediaType → Text
media_type_text movie = codes "movie"
media_type_text tv = codes "tv"

pub data ParseMediaTypeError : Type 0 where
  unknown : ParseMediaTypeError

-- `FromStr`.
unfoldable pub from_str : Text → Result ParseMediaTypeError MediaType
from_str value =
    if text_eq value (codes "movie")
    then ok movie
    else if text_eq value (codes "tv")
    then ok tv
    else err unknown

-- Reading and printing a media type are inverse to each other: a text is read as a type exactly if
-- it is the text that the type prints.
pub from_str_iff :
    (value : Text) (t : MediaType) → (from_str value ≡ ok t) ↔ (value ≡ media_type_text t)
unfolding from_str media_type_text
from_str_iff value movie = (
  λ h. ground (arith, text_eq_iff value (codes "movie"), text_eq_iff value (codes "tv")),
  λ h. rw h (unfold text_eq in refl),
)
from_str_iff value tv = (
  λ h. ground (arith, text_eq_iff value (codes "movie"), text_eq_iff value (codes "tv")),
  λ h. rw h (unfold text_eq in refl),
)
