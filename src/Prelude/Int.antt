-- ===== src/Prelude/Int.antt =====
-- Signed numbers over the native ℕ: `negsuc n` is -(n + 1).
use Prim.Native.Nat.{ℕ}
use mathlib.Core.Bool.{Bool, true, false}
use tmdb_mirror.Prelude.Tests.{leb}

pub data ℤ : Type 0 where
  pos : ℕ → ℤ
  negsuc : ℕ → ℤ

abbrev pub leℤ : ℤ → ℤ → Bool
leℤ (pos a) (pos b) = leb a b
leℤ (pos a) (negsuc b) = false
leℤ (negsuc a) (pos b) = true
leℤ (negsuc a) (negsuc b) = leb b a
