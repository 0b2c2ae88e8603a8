-- ===== src/Upstream/Export/Lines.antt =====
-- Reading a line does not depend on how the input is cut into buffers.
use mathlib.Core.List.{append_assoc, append-nil}
use mathlib.Core.Path.{subst}
use tmdb_mirror.Prelude.{
  ℕ, ◌+◌, ◌≤◌, ◌<◌, ◌≡◌, refl, sym, ap, ◌∙◌, Bool, true, false, List, [], ◌∷◌, ◌++◌, Option, none,
  some, ltb, if◌then◌else◌, length, length-append, Result, ok, err, All, arith,
}
use tmdb_mirror.Upstream.Export.{
  Buffers, LineReadError, too_long, split_line, put_back, read_line_bounded,
}

-- A buffer without an error and not empty: an empty one would mean the end of the input.
abbrev pub IsFull : Option (List ℕ) → Type 0
IsFull none = ⊥
IsFull (some []) = ⊥
IsFull (some (b ∷ bytes)) = Unit

-- The bytes of the buffers.
abbrev pub bytes_of : Buffers → List ℕ
bytes_of [] = []
bytes_of (none ∷ buffers) = bytes_of buffers
bytes_of (some bytes ∷ buffers) = bytes ++ bytes_of buffers

-- The first line of an input, with its line feed, and what stands behind it.
abbrev pub first_line : List ℕ → List ℕ
first_line bytes = (split_line bytes).0

abbrev pub behind_line : List ℕ → List ℕ
behind_line bytes = (split_line bytes).1

split-found :
    (bytes more : List ℕ)
    → (split_line bytes).2 ≡ true
    → (first_line (bytes ++ more) ≡ first_line bytes)
      × (behind_line (bytes ++ more) ≡ behind_line bytes ++ more)
unfolding split_line
split-found [] more h = cc
split-found (b ∷ bytes) more h = ground (arith, split-found bytes more)

split-missing :
    (bytes more : List ℕ)
    → (split_line bytes).2 ≡ false
    → (first_line bytes ≡ bytes)
      × (first_line (bytes ++ more) ≡ bytes ++ first_line more)
      × (behind_line (bytes ++ more) ≡ behind_line more)
unfolding split_line
split-missing [] more h = (refl, refl, refl)
split-missing (b ∷ bytes) more h = ground (arith, split-missing bytes more)

put_back-IsFull :
    (left : List ℕ) (buffers : Buffers) → All IsFull buffers → All IsFull (put_back left buffers)
put_back-IsFull [] buffers h = h
put_back-IsFull (b ∷ left) buffers h = (tt, h)

bytes_of-put_back :
    (left : List ℕ) (buffers : Buffers)
    → bytes_of (put_back left buffers) ≡ left ++ bytes_of buffers
bytes_of-put_back [] buffers = refl
bytes_of-put_back (b ∷ left) buffers = refl

first_line-longer :
    (bytes more : List ℕ) → length (first_line bytes) ≤ length (first_line (bytes ++ more))
unfolding split_line
first_line-longer [] more = omega arith
first_line-longer (b ∷ bytes) more = ground (arith, first_line-longer bytes more)

split-length :
    (bytes : List ℕ) → length bytes ≡ length (first_line bytes) + length (behind_line bytes)
unfolding split_line
split-length [] = refl
split-length (b ∷ bytes) = ground (arith, split-length bytes)

-- What reading should answer: the line in full if it fits, and the buffers of the rest.
abbrev pub Reads : List ℕ → List ℕ → ℕ → Result LineReadError (List ℕ × Buffers) → Type 0
Reads line bytes most (err e) = (e ≡ too_long) × (most < length line + length (first_line bytes))
Reads line bytes most (ok (out, left)) =
    (length line + length (first_line bytes) ≤ most)
    × (out ≡ line ++ first_line bytes)
    × (bytes_of left ≡ behind_line bytes)
    × All IsFull left

-- The line grows by a part of the first line, and the rest of it is read from what follows.
Reads-append :
    (line part bytes more : List ℕ) (most : ℕ) (result : Result LineReadError (List ℕ × Buffers))
    → first_line bytes ≡ part ++ first_line more
    → behind_line bytes ≡ behind_line more
    → Reads (line ++ part) more most result
    → Reads line bytes most result
Reads-append line part bytes more most (err e) first behind (same, over) = (
  same,
  grind (arith, ap length first, length-append line part, length-append part (first_line more)),
)
Reads-append line part bytes more most (ok (out, left)) first behind (fits, same, rest, full) = (
  grind (arith, ap length first, length-append line part, length-append part (first_line more)),
  cc (same, first, append_assoc line part (first_line more)),
  cc,
  full,
)

if-cases :
    {A : Type 0} (first second : Bool) (P : A → Type 0) {a b c : A}
    → (first ≡ true → P a)
    → (first ≡ false → second ≡ true → P b)
    → (first ≡ false → second ≡ false → P c)
    → P (if first then a else if second then b else c)
if-cases true second P on_a on_b on_c = on_a refl
if-cases false true P on_a on_b on_c = on_b refl refl
if-cases false false P on_a on_b on_c = on_c refl refl

read-Reads :
    (line : List ℕ) (buffers : Buffers) (most : ℕ)
    → All IsFull buffers
    → length line ≤ most
    → Reads line (bytes_of buffers) most (read_line_bounded line buffers most)
unfolding read_line_bounded
read-Reads line [] most full h = (
  unfold split_line in omega arith,
  unfold split_line in sym (append-nil line),
  unfold split_line in refl,
  tt,
)
read-Reads line (none ∷ buffers) most (full, fulls) h = absurd full
read-Reads line (some [] ∷ buffers) most (full, fulls) h = absurd full
read-Reads line (some (b ∷ bytes) ∷ buffers) most (full, fulls) h =
    let part = first_line (b ∷ bytes) in
    let whole = (b ∷ bytes) ++ bytes_of buffers in
    if-cases (ltb most (length line + length part)) (split_line (b ∷ bytes)).2
      (Reads line whole most)
      (λ over. (refl, ground (arith, first_line-longer (b ∷ bytes) (bytes_of buffers))))
      (λ within found.
        let (same, behind) = split-found (b ∷ bytes) (bytes_of buffers) found in
        (
          grind (arith, ap length same),
          ap (λ x. line ++ x) (sym same),
          bytes_of-put_back (behind_line (b ∷ bytes)) buffers ∙ sym behind,
          put_back-IsFull (behind_line (b ∷ bytes)) buffers fulls,
        ))
      (λ within missing.
        let (all_of_it, first, behind) = split-missing (b ∷ bytes) (bytes_of buffers) missing in
        Reads-append line part whole (bytes_of buffers) most
          (read_line_bounded (line ++ part) buffers most)
          (first ∙ ap (λ x. x ++ first_line (bytes_of buffers)) (sym all_of_it)) behind
          (read-Reads (line ++ part) buffers most fulls (grind (arith, length-append line part))))

abbrev pub SameRead :
    Result LineReadError (List ℕ × Buffers) → Result LineReadError (List ℕ × Buffers) → Type 0
SameRead (err e) (err e') = e ≡ e'
SameRead (ok (line, left)) (ok (line', left')) =
    (line ≡ line') × (bytes_of left ≡ bytes_of left') × All IsFull left × All IsFull left'
SameRead (err e) (ok r) = ⊥
SameRead (ok r) (err e) = ⊥

Reads-unique :
    (bytes : List ℕ) (most : ℕ) (r r' : Result LineReadError (List ℕ × Buffers))
    → Reads [] bytes most r
    → Reads [] bytes most r'
    → SameRead r r'
Reads-unique bytes most (err e) (err e') (a, x) (b, y) = cc
Reads-unique bytes most (err e) (ok (line, left)) (a, x) (b, y, z, f) = omega arith
Reads-unique bytes most (ok (line, left)) (err e') (a, x, z, f) (b, y) = omega arith
Reads-unique bytes most (ok (line, left)) (ok (line', left')) (n, a, b, f) (n', a', b', f') =
    (cc, cc, f, f')

-- Two inputs of the same bytes, cut into non-empty buffers in different ways and without an I/O
-- error, read alike under the same bound: both give the same line and leave inputs of the same
-- bytes, or both fail with the same error.
pub read_line-SameRead :
    (buffers buffers' : Buffers) (most : ℕ)
    → All IsFull buffers
    → All IsFull buffers'
    → bytes_of buffers ≡ bytes_of buffers'
    → SameRead (read_line_bounded [] buffers most) (read_line_bounded [] buffers' most)
read_line-SameRead buffers buffers' most full full' same =
    Reads-unique (bytes_of buffers) most (read_line_bounded [] buffers most)
      (read_line_bounded [] buffers' most) (read-Reads [] buffers most full (omega arith))
      (subst (λ x. Reads [] x most (read_line_bounded [] buffers' most)) (sym same)
        (read-Reads [] buffers' most full' (omega arith)))

-- What is left behind a line that is read is shorter by the line, and free of errors as before.
pub read_line-shorter :
    (buffers left : Buffers) (line : List ℕ) (most : ℕ)
    → All IsFull buffers
    → read_line_bounded [] buffers most ≡ ok (line, left)
    → (length (bytes_of buffers) ≡ length line + length (bytes_of left)) × All IsFull left
read_line-shorter buffers left line most full run =
    let (fits, same, rest, fulls) =
      subst (Reads [] (bytes_of buffers) most) run
        (read-Reads [] buffers most full (omega arith)) in
    (grind (arith, ap length same, ap length rest, split-length (bytes_of buffers)), fulls)
