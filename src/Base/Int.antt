-- ===== src/Base/Int.antt =====
-- Signed integers over the native numbers, under the library's names. Sums and orders go
-- through the two parts of an integer, which are numbers that `omega` reads.
use Prim.Native.Nat.{ℕ, suc, ◌+◌, ◌-◌, ◌*◌, ◌%◌, ◌^◌, ◌≤◌}
use mathlib.Core.Path.{◌≡◌, refl}
use mathlib.Core.Bool.{Bool}
use native.Mathlib.Omega.{arith}
use trading_sor_mock.Base.Tests.{ltb, leb, ◌==◌, if◌then◌else◌}

-- `negsuc n` is -(n + 1).
pub data ℤ : Type 0 where
  pos : ℕ → ℤ
  negsuc : ℕ → ℤ

abbrev pub pos_part : ℤ → ℕ
pos_part (pos n) = n
pos_part (negsuc n) = 0

abbrev pub neg_part : ℤ → ℕ
neg_part (pos n) = 0
neg_part (negsuc n) = suc n

-- a - b, as an integer.
abbrev pub sub_ℕ : ℕ → ℕ → ℤ
sub_ℕ a b = if leb b a then pos (a - b) else negsuc (b - a - 1)

infixl 65 ◌+ℤ◌ ◌-ℤ◌
infixl 70 ◌*ℤ◌
infix 50 ◌≤ℤ◌
unfoldable pub ◌+ℤ◌ : ℤ → ℤ → ℤ
a +ℤ b = sub_ℕ (pos_part a + pos_part b) (neg_part a + neg_part b)

unfoldable pub ◌-ℤ◌ : ℤ → ℤ → ℤ
a -ℤ b = sub_ℕ (pos_part a + neg_part b) (neg_part a + pos_part b)

unfoldable pub ◌*ℤ◌ : ℤ → ℤ → ℤ
a *ℤ b =
    sub_ℕ (pos_part a * pos_part b + neg_part a * neg_part b)
      (pos_part a * neg_part b + neg_part a * pos_part b)

abbrev pub ◌≤ℤ◌ : ℤ → ℤ → Type 0
a ≤ℤ b = pos_part a + neg_part b ≤ pos_part b + neg_part a

abbrev pub ltb_ℤ : ℤ → ℤ → Bool
ltb_ℤ a b = ltb (pos_part a + neg_part b) (pos_part b + neg_part a)

-- One lemma for each operation lets `omega` work with the operations shut, at any depth.
pub +ℤ_parts :
    (a b : ℤ)
    → pos_part (a +ℤ b) + neg_part a + neg_part b ≡ neg_part (a +ℤ b) + pos_part a + pos_part b
unfolding ◌+ℤ◌
+ℤ_parts a b = ground arith

pub -ℤ_parts :
    (a b : ℤ)
    → pos_part (a -ℤ b) + neg_part a + pos_part b ≡ neg_part (a -ℤ b) + pos_part a + neg_part b
unfolding ◌-ℤ◌
-ℤ_parts a b = ground arith

pub eq_of_parts : (a b : ℤ) → pos_part a + neg_part b ≡ pos_part b + neg_part a → a ≡ b
eq_of_parts a b h = ground arith

pub ruleset int_laws = (arith, +ℤ_parts, -ℤ_parts, eq_of_parts)

abbrev pub leb_ℤ : ℤ → ℤ → Bool
leb_ℤ a b = leb (pos_part a + neg_part b) (pos_part b + neg_part a)

abbrev pub eqb_ℤ : ℤ → ℤ → Bool
eqb_ℤ a b = pos_part a + neg_part b == pos_part b + neg_part a

abbrev pub neg : ℤ → ℤ
neg a = sub_ℕ (neg_part a) (pos_part a)

-- An integer in two's complement with `half` numbers on each side of zero.
unfoldable pub wrap : (half : ℕ) → ℤ → ℤ
wrap half (pos n) =
    let m = n % (2 * half) in if ltb m half then pos m else negsuc (2 * half - 1 - m)
wrap half (negsuc n) =
    let m = n % (2 * half) in if ltb m half then negsuc m else pos (2 * half - 1 - m)

-- What is stored of an integer in an int32 and in an int64.
abbrev pub int32 : ℤ → ℤ
int32 x = wrap (2 ^ 31) x

abbrev pub int64 : ℤ → ℤ
int64 x = wrap (2 ^ 63) x

-- In its range a number stays as it is.
pub int32-id : (x : ℤ) → negsuc (2 ^ 31 - 1) ≤ℤ x → x ≤ℤ pos (2 ^ 31 - 1) → int32 x ≡ x
unfolding wrap
int32-id x lo hi = ground arith

pub int64-id : (x : ℤ) → negsuc (2 ^ 63 - 1) ≤ℤ x → x ≤ℤ pos (2 ^ 63 - 1) → int64 x ≡ x
unfolding wrap
int64-id x lo hi = ground arith

-- A number that is not below the range can only become less.
pub int32-le : (x : ℤ) → negsuc (2 ^ 31 - 1) ≤ℤ x → int32 x ≤ℤ x
unfolding wrap
int32-le x lo = ground arith

wrap_run :
    (int32 (pos (2 ^ 31)) ≡ negsuc (2 ^ 31 - 1)) × (int32 (negsuc (2 ^ 31)) ≡ pos (2 ^ 31 - 1))
unfolding wrap
wrap_run = (refl, refl)
