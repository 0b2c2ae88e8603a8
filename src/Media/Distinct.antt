-- ===== src/Media/Distinct.antt =====
-- crates/tmdb-media/src/lib.rs: the names of image files tell variants and formats apart.
use mathlib.Core.Path.{ap₂}
use tmdb_mirror.Prelude.{
  ℕ, zero, suc, ◌+◌, ◌≡◌, refl, sym, ap, ◌∙◌, drop, Bool, true, [], ◌∷◌, ◌++◌, ◌==◌, Text, codes,
  arith, all, not,
}
use tmdb_mirror.Prelude.Decimal.{
  show_padded, all-show_padded, read_number, read_onto, read_number-show_padded, IsBreak,
}
use tmdb_mirror.Media.{
  AssetVariant, poster, backdrop, logo, profile, season_poster, episode_thumbnail, ImageFormat,
  jpeg, webp, png, extension, dotted, is_plain_part,
}
use tmdb_mirror.Media.Names.{tail_of, season_code, name_of}

padded-injective :
    (m n : ℕ) (s t : Text)
    → IsBreak s
    → IsBreak t
    → show_padded m ++ s ≡ show_padded n ++ t
    → (m ≡ n) × (s ≡ t)
padded-injective m n s t bs bt h =
    let same =
      sym (read_number-show_padded m s bs) ∙ ap read_number h ∙ read_number-show_padded n t bt in
    (ap (λ p. p.0) same, ap (λ p. p.1) same)

-- The first code point of a text.
abbrev pub head_code : Text → ℕ
head_code [] = 0
head_code (c ∷ text) = c

extension-injective : (f g : ImageFormat) → extension f ≡ extension g → f ≡ g
unfolding extension
extension-injective jpeg jpeg h = refl
extension-injective webp webp h = refl
extension-injective png png h = refl
extension-injective jpeg webp h = absurd (omega (arith, ap head_code h))
extension-injective jpeg png h = absurd (omega (arith, ap head_code h))
extension-injective webp jpeg h = absurd (omega (arith, ap head_code h))
extension-injective webp png h = absurd (omega (arith, ap head_code h))
extension-injective png jpeg h = absurd (omega (arith, ap head_code h))
extension-injective png webp h = absurd (omega (arith, ap head_code h))

tail_of-injective : (i j : ℕ) (f g : ImageFormat) → tail_of i f ≡ tail_of j g → (i ≡ j) × (f ≡ g)
unfolding tail_of
tail_of-injective i j f g h = grind (
  arith,
  extension-injective f g,
  padded-injective i j (dotted (extension f)) (dotted (extension g)) refl refl,
)

-- A text that starts with a dash.
abbrev dashed : Text → Text
dashed text = b'-' ∷ text

-- What stands behind the number of a season.
abbrev behind_season : ℕ → Text → Text
behind_season zero rest = codes "-specials" ++ rest
behind_season (suc s) rest = rest

read_number-season_code :
    (s : ℕ) (t : Text) → read_number (season_code s (dashed t)) ≡ (s, behind_season s (dashed t))
unfolding season_code
read_number-season_code zero t = unfold read_onto in refl
read_number-season_code (suc s) t = ground (arith, read_number-show_padded (suc s) (dashed t) refl)

season_code-injective :
    (s s' : ℕ) (t t' : Text)
    → season_code s (dashed t) ≡ season_code s' (dashed t')
    → (s ≡ s') × (dashed t ≡ dashed t')
season_code-injective s s' t t' h =
    let same =
      sym (read_number-season_code s t) ∙ ap read_number h ∙ read_number-season_code s' t' in
    (ap (λ p. p.0) same, behind s s' (ap (λ p. p.0) same) (ap (λ p. p.1) same))
  where
    behind :
        (s s' : ℕ)
        → s ≡ s'
        → behind_season s (dashed t) ≡ behind_season s' (dashed t')
        → dashed t ≡ dashed t'
    behind zero zero e h = ap (drop 9) h
    behind zero (suc n) e h = absurd (omega arith)
    behind (suc n) zero e h = absurd (omega arith)
    behind (suc n) (suc m) e h = h

abbrev thumbs : ℕ → ImageFormat → Text
thumbs i f = codes "-thumbnails" ++ tail_of i f

-- The first two letters of a name, added: no two kinds of names but the two of seasons share them.
abbrev letters : Text → ℕ
letters text = head_code text + head_code (drop 1 text)

-- Different variants and formats have different names.
pub name_of-injective :
    (v w : AssetVariant) (f g : ImageFormat) → name_of v f ≡ name_of w g → (v ≡ w) × (f ≡ g)
name_of-injective (poster i) (poster j) f g h =
    let (a, b) = tail_of-injective i j f g (ap (drop 6) h) in (ap poster a, b)
name_of-injective (logo i) (logo j) f g h =
    let (a, b) = tail_of-injective i j f g (ap (drop 4) h) in (ap logo a, b)
name_of-injective (profile i) (profile j) f g h =
    let (a, b) = tail_of-injective i j f g (ap (drop 7) h) in (ap profile a, b)
name_of-injective (backdrop i) (backdrop j) f g h =
    let (a, b) =
      padded-injective i j (dotted (extension f)) (dotted (extension g)) refl refl
        (ap (drop 9) h) in
    (ap backdrop a, extension-injective f g (ap (drop 1) b))
name_of-injective (season_poster s i) (season_poster s' j) f g h =
    let (a, b) =
      season_code-injective s s' (codes "poster" ++ tail_of i f) (codes "poster" ++ tail_of j g)
        (ap (drop 6) h) in
    let (c, d) = tail_of-injective i j f g (ap (drop 7) b) in (ap₂ season_poster a c, d)
name_of-injective (episode_thumbnail s e i) (episode_thumbnail s' e' j) f g h =
    let (a, b) =
      season_code-injective s s' (codes "episode" ++ (show_padded e ++ thumbs i f))
        (codes "episode" ++ (show_padded e' ++ thumbs j g)) (ap (drop 6) h) in
    let (c, d) = padded-injective e e' (thumbs i f) (thumbs j g) refl refl (ap (drop 8) b) in
    let (k, l) = tail_of-injective i j f g (ap (drop 11) d) in (cc (a, c, k), l)
name_of-injective (season_poster s i) (episode_thumbnail s' e' j) f g h =
    let (a, b) =
      season_code-injective s s' (codes "poster" ++ tail_of i f)
        (codes "episode" ++ (show_padded e' ++ (codes "-thumbnails" ++ tail_of j g)))
        (ap (drop 6) h) in
    absurd (omega (arith, ap (λ t. head_code (drop 1 t)) b))
name_of-injective (episode_thumbnail s e i) (season_poster s' j) f g h =
    let (a, b) =
      season_code-injective s s'
        (codes "episode" ++ (show_padded e ++ (codes "-thumbnails" ++ tail_of i f)))
        (codes "poster" ++ tail_of j g) (ap (drop 6) h) in
    absurd (omega (arith, ap (λ t. head_code (drop 1 t)) b))
name_of-injective v w f g h = absurd (omega (arith, ap letters h))

-- A code point other than a slash.
abbrev pub is_other : ℕ → Bool
is_other c = not (c == b'/')

all_append : (p : ℕ → Bool) (s t : Text) → all p s ≡ true → all p t ≡ true → all p (s ++ t) ≡ true
all_append p [] t a b = b
all_append p (c ∷ s) t a b = ground (arith, all_append p s t)

dotted-plain : (f : ImageFormat) → all is_other (dotted (extension f)) ≡ true
unfolding extension
dotted-plain jpeg = refl
dotted-plain webp = refl
dotted-plain png = refl

padded-plain : (n : ℕ) (t : Text) → all is_other t ≡ true → all is_other (show_padded n ++ t) ≡ true
padded-plain n t h =
    all_append is_other (show_padded n) t (all-show_padded is_other n (λ d k. ground arith)) h

tail-plain : (i : ℕ) (f : ImageFormat) → all is_other (tail_of i f) ≡ true
unfolding tail_of
tail-plain i f =
    ground (arith, dotted-plain f, padded-plain i (dotted (extension f)) (dotted-plain f))

season-plain : (s : ℕ) (t : Text) → all is_other t ≡ true → all is_other (season_code s t) ≡ true
unfolding season_code
season-plain s t h = ground (arith, padded-plain s t h)

-- No name has a slash, and none starts with a dot.
pub name_of-plain :
    (v : AssetVariant) (f : ImageFormat)
    → (all is_other (name_of v f) ≡ true) × (is_plain_part (name_of v f) ≡ true)
name_of-plain (poster i) f = (tail-plain i f, refl)
name_of-plain (logo i) f = (tail-plain i f, refl)
name_of-plain (profile i) f = (tail-plain i f, refl)
name_of-plain (backdrop i) f = (padded-plain i (dotted (extension f)) (dotted-plain f), refl)
name_of-plain (season_poster s i) f =
    (season-plain s (codes "-poster" ++ tail_of i f) (tail-plain i f), refl)
name_of-plain (episode_thumbnail s e i) f = (
  season-plain s (codes "-episode" ++ (show_padded e ++ thumbs i f))
      (padded-plain e (thumbs i f) (tail-plain i f)),
  refl,
)
