-- ===== src/Prelude/Url.antt =====
-- What the url crate finds in a text, by its accessors.
use mathlib.Core.Option.{Option}
use tmdb_mirror.Prelude.Chars.{Text}

pub record Url : Type 0 where
  pub scheme : Text
  pub host_str : Option Text
  pub username : Text
  pub password : Option Text
  pub query : Option Text
  pub fragment : Option Text
