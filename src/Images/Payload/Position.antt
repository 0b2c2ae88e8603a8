-- ===== src/Images/Payload/Position.antt =====
-- apps/tmdb-images/src/image.rs: what a validated payload says about its place.
use mathlib.Core.Path.{subst}
use tmdb_mirror.Prelude.{
  ℕ, zero, suc, ◌≡◌, ◌<◌, refl, sym, ◌≢◌, ◌↔◌, Bool, true, false, Option, none, some, Result, ok,
  err, ℤ, pos, negsuc, arith, Text, ◌>>◌, reject_if, not, ◌==◌,
}
use tmdb_mirror.Images.Payload.{
  ImageEntityType, season, episode, ImageJobPayload, validate_position, validate_common, validate,
  Url, with_tv_position, with_asset_index, ImagePayloadError, unsupported_version,
  invalid_entity_id, invalid_asset_index, is_one, is_not_positive,
}

-- Where an entity of a type stands, by its season, its episode and its title's identifier.
abbrev pub IsAt : ImageEntityType → Option ℕ → Option ℕ → Option ℤ → Type 0
IsAt season s e t = (s ≢ none) × ((n : ℕ) × (t ≡ some (pos (suc n)))) × (e ≡ none)
IsAt episode s e t =
    (s ≢ none) × ((n : ℕ) × (t ≡ some (pos (suc n)))) × ((n : ℕ) × (e ≡ some (suc n)))
IsAt entity s e t = (e ≡ none) × (t ≡ none)

abbrev at : ImageJobPayload → ImageEntityType → Option ℕ → Option ℕ → Option ℤ → ImageJobPayload
at p x s e t = record p {
  entity_type = x;
  season_number = s;
  episode_number = e;
  title_tmdb_id = t;
}

at_iff :
    (p : ImageJobPayload) (x : ImageEntityType) (s e : Option ℕ) (t : Option ℤ)
    → (validate_position (at p x s e t) ≡ ok tt) ↔ IsAt x s e t
unfolding validate_position
at_iff p season none e t = ground arith
at_iff p season (some s) e none = ground arith
at_iff p season (some s) none (some (pos zero)) = ground arith
at_iff p season (some s) none (some (pos (suc n))) =
    (λ h. ((λ e. cc), (n, refl), refl), λ h. ground arith)
at_iff p season (some s) none (some (negsuc n)) = ground arith
at_iff p season (some s) (some e) (some t) = ground arith
at_iff p episode none e t = ground arith
at_iff p episode (some s) e none = ground arith
at_iff p episode (some s) e (some (pos zero)) = ground arith
at_iff p episode (some s) none (some (pos (suc n))) = ground arith
at_iff p episode (some s) (some zero) (some (pos (suc n))) = ground arith
at_iff p episode (some s) (some (suc e)) (some (pos (suc n))) =
    (λ h. ((λ a. cc), (n, refl), (e, refl)), λ h. ground arith)
at_iff p episode (some s) e (some (negsuc n)) = ground arith
at_iff p x s none none = ground arith
at_iff p x s (some e) t = ground arith
at_iff p x s none (some t) = ground arith

-- `validate_position` accepts a season and an episode exactly with a season number, a positive
-- title and, for an episode, a positive number, and any other entity exactly without a title; only
-- an episode may have an episode number.
pub validate_position_iff :
    (p : ImageJobPayload)
    → (validate_position p ≡ ok tt)
      ↔ IsAt p.entity_type p.season_number p.episode_number p.title_tmdb_id
validate_position_iff p = at_iff p p.entity_type p.season_number p.episode_number p.title_tmdb_id

seq : (a b : Result ImagePayloadError (Unit {0})) → (a >> b) ≡ ok tt → (a ≡ ok tt) × (b ≡ ok tt)
seq (err e) b h = cc
seq (ok u) b h = (refl, h)

passed : (b : Bool) (e : ImagePayloadError) → reject_if b e ≡ ok tt → b ≡ false
passed true e h = cc
passed false e h = refl

positive : (i : ℤ) → is_not_positive i ≡ false → (n : ℕ) × (i ≡ pos (suc n))
positive (pos zero) h = ground arith
positive (pos (suc n)) h = (n, refl)
positive (negsuc n) h = cc

-- What a validated payload gives to the code that places its image.
pub record IsReady (p : ImageJobPayload) : Type 0 where
  pub identified : (n : ℕ) × (p.entity_id ≡ pos (suc n))
  pub indexed : 0 < p.asset_index
  pub positioned : IsAt p.entity_type p.season_number p.episode_number p.title_tmdb_id

module _ (parse_url : Text → Option Url) where
  pub validate-IsReady : (p : ImageJobPayload) → validate parse_url p ≡ ok tt → IsReady p
  unfolding validate validate_common
  validate-IsReady p h =
      let (common, position) = seq (validate_common parse_url p) (validate_position p) h in
      let (version, rest) =
        seq (reject_if (not (is_one p.schema_version)) unsupported_version) _ common in
      let (id, rest2) = seq (reject_if (is_not_positive p.entity_id) invalid_entity_id) _ rest in
      let (index, rest3) = seq (reject_if (p.asset_index == 0) invalid_asset_index) _ rest2 in
      record {
        identified =
            positive p.entity_id (passed (is_not_positive p.entity_id) invalid_entity_id id);
        indexed = ground (arith, passed (p.asset_index == 0) invalid_asset_index index);
        positioned = (validate_position_iff p).0 position;
      }

  ready :
      (p q : ImageJobPayload) (r : Result ImagePayloadError (Unit {0}))
      → (r ≡ ok tt → IsReady p)
      → (r >> ok p) ≡ ok q
      → (q ≡ p) × IsReady q
  ready p q (err e) made h = cc
  ready p q (ok u) made h = (same refl h, subst IsReady (sym (same refl h)) (made refl))
    where
      same : {r : Result ImagePayloadError ImageJobPayload} → r ≡ ok p → r ≡ ok q → q ≡ p
      same a b = cc

  -- `with_tv_position` and `with_asset_index` change the fields they are given and return the
  -- payload only if it has a positive identifier and index and stands where its type asks for.
  pub builders-IsReady :
      (p q : ImageJobPayload)
      → ((title : ℤ) (s : ℕ) (e : Option ℕ)
          → with_tv_position parse_url p title s e ≡ ok q
          → (q
              ≡ record p { title_tmdb_id = some title; season_number = some s; episode_number = e })
            × IsReady q)
        × ((i : ℕ)
            → with_asset_index parse_url p i ≡ ok q
            → (q ≡ record p { asset_index = i }) × IsReady q)
  unfolding with_tv_position with_asset_index
  builders-IsReady p q =
      (λ title s e h. ready _ q _ (validate-IsReady _) h, λ i h. ready _ q _ (validate-IsReady _) h)
