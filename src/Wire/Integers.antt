-- ===== src/Wire/Integers.antt =====
-- Integers and strings read back from the bytes that they were written to (core/src/wire.c).
use trading_sor_mock.Base.{
  ℕ, zero, suc, ◌+◌, ◌-◌, ◌*◌, ◌/◌, ◌%◌, ◌^◌, ◌≤◌, ◌<◌, ◌≡◌, refl, ap, ◌∙◌, ◌≢◌, [], ◌∷◌, ◌++◌,
  arith, append-nil, ==_false, length, take, length-append, length-take, All, take-append, take_all,
}
use trading_sor_mock.Base.Int.{ℤ, pos, negsuc, pos_part, neg_part}
use trading_sor_mock.Wire.{
  Bytes, wire_put_u8, wire_put_u16, wire_put_u32, wire_put_u64, to_unsigned, wire_put_i32,
  wire_put_i64, wire_get_u8, wire_get_u16, wire_get_u32, wire_get_u64, from_unsigned, wire_get_i32,
  wire_get_i64, zeros, wire_put_str, until_zero, wire_get_str,
}

-- The sum of the bytes of a number.
pub u16_bytes : (v : ℕ) → v < 2 ^ 16 → v / 2 ^ 8 % 256 * 2 ^ 8 + v % 256 ≡ v
u16_bytes v h = omega arith

pub u32_bytes :
    (v : ℕ)
    → v < 2 ^ 32
    → v / 2 ^ 24 % 256 * 2 ^ 24 + v / 2 ^ 16 % 256 * 2 ^ 16 + v / 2 ^ 8 % 256 * 2 ^ 8 + v % 256 ≡ v
u32_bytes v h = omega arith

pub u64_bytes :
    (v : ℕ)
    → v < 2 ^ 64
    → v / 2 ^ 56 % 256 * 2 ^ 56
        + v / 2 ^ 48 % 256 * 2 ^ 48
        + v / 2 ^ 40 % 256 * 2 ^ 40
        + v / 2 ^ 32 % 256 * 2 ^ 32
        + v / 2 ^ 24 % 256 * 2 ^ 24
        + v / 2 ^ 16 % 256 * 2 ^ 16
        + v / 2 ^ 8 % 256 * 2 ^ 8
        + v % 256
      ≡ v
u64_bytes v h = omega arith

pub wire_get_u16-wire_put_u16 :
    (v : ℕ) (rest : Bytes) → v < 2 ^ 16 → wire_get_u16 (wire_put_u16 v ++ rest) 0 ≡ v
unfolding wire_get_u16 wire_put_u16
wire_get_u16-wire_put_u16 v rest h = u16_bytes v h

pub wire_get_u32-wire_put_u32 :
    (v : ℕ) (rest : Bytes) → v < 2 ^ 32 → wire_get_u32 (wire_put_u32 v ++ rest) 0 ≡ v
unfolding wire_get_u32 wire_put_u32
wire_get_u32-wire_put_u32 v rest h = u32_bytes v h

pub wire_get_u64-wire_put_u64 :
    (v : ℕ) (rest : Bytes) → v < 2 ^ 64 → wire_get_u64 (wire_put_u64 v ++ rest) 0 ≡ v
unfolding wire_get_u64 wire_put_u64
wire_get_u64-wire_put_u64 v rest h = u64_bytes v h

-- An int64, and an int32.
abbrev pub IsInt64 : ℤ → Type 0
IsInt64 v = (pos_part v < 2 ^ 63) × (neg_part v ≤ 2 ^ 63)

abbrev pub IsInt32 : ℤ → Type 0
IsInt32 v = (pos_part v < 2 ^ 31) × (neg_part v ≤ 2 ^ 31)

pub from_unsigned-to_unsigned_64 :
    (v : ℤ) → IsInt64 v → from_unsigned (2 ^ 63) (to_unsigned (2 ^ 64) v) ≡ v
from_unsigned-to_unsigned_64 (pos n) h = ground arith
from_unsigned-to_unsigned_64 (negsuc n) h = ground arith

pub from_unsigned-to_unsigned_32 :
    (v : ℤ) → IsInt32 v → from_unsigned (2 ^ 31) (to_unsigned (2 ^ 32) v) ≡ v
from_unsigned-to_unsigned_32 (pos n) h = ground arith
from_unsigned-to_unsigned_32 (negsuc n) h = ground arith

pub to_unsigned_64-lt : (v : ℤ) → to_unsigned (2 ^ 64) v < 2 ^ 64
to_unsigned_64-lt (pos n) = omega arith
to_unsigned_64-lt (negsuc n) = omega arith

pub to_unsigned_32-lt : (v : ℤ) → to_unsigned (2 ^ 32) v < 2 ^ 32
to_unsigned_32-lt (pos n) = omega arith
to_unsigned_32-lt (negsuc n) = omega arith

-- Every integer of the wire, written and then read with any bytes behind it, is the same: the
-- unsigned ones of 8, 16, 32 and 64 bits, and the signed ones of 32 and 64 bits, negative or not.
pub wire_get-wire_put :
    (u : ℕ) (v : ℤ) (rest : Bytes)
    → (u < 2 ^ 8 → wire_get_u8 (wire_put_u8 u ++ rest) 0 ≡ u)
      × (u < 2 ^ 16 → wire_get_u16 (wire_put_u16 u ++ rest) 0 ≡ u)
      × (u < 2 ^ 32 → wire_get_u32 (wire_put_u32 u ++ rest) 0 ≡ u)
      × (u < 2 ^ 64 → wire_get_u64 (wire_put_u64 u ++ rest) 0 ≡ u)
      × (IsInt32 v → wire_get_i32 (wire_put_i32 v ++ rest) 0 ≡ v)
      × (IsInt64 v → wire_get_i64 (wire_put_i64 v ++ rest) 0 ≡ v)
unfolding wire_get_u8 wire_put_u8 wire_get_i32 wire_put_i32 wire_get_i64 wire_put_i64
wire_get-wire_put u v rest = (
  λ h. omega (arith, h),
  wire_get_u16-wire_put_u16 u rest,
  wire_get_u32-wire_put_u32 u rest,
  wire_get_u64-wire_put_u64 u rest,
  λ h.
      rw (wire_get_u32-wire_put_u32 (to_unsigned (2 ^ 32) v) rest (to_unsigned_32-lt v))
        (from_unsigned-to_unsigned_32 v h),
  λ h.
      rw (wire_get_u64-wire_put_u64 (to_unsigned (2 ^ 64) v) rest (to_unsigned_64-lt v))
        (from_unsigned-to_unsigned_64 v h),
)

-- A string has no zero byte.
abbrev pub NoZero : Bytes → Type 0
NoZero = All (λ b. b ≢ 0)

until_zero-append : (s back : Bytes) → NoZero s → until_zero (s ++ back) ≡ s ++ until_zero back
unfolding until_zero
until_zero-append [] back h = refl
until_zero-append (b ∷ s) back h =
    rw (==_false b 0 h.0) (ap (λ xs. b ∷ xs) (until_zero-append s back h.1))

length-zeros : (n : ℕ) → length (zeros n) ≡ n
length-zeros zero = refl
length-zeros (suc n) = omega (arith, length-zeros n)

NoZero-take : (n : ℕ) (s : Bytes) → NoZero s → NoZero (take n s)
NoZero-take zero s h = tt
NoZero-take (suc n) [] h = tt
NoZero-take (suc n) (b ∷ s) h = (h.0, NoZero-take n s h.1)

until_zero-zeros : (n : ℕ) → until_zero (zeros n) ≡ []
unfolding until_zero
until_zero-zeros zero = refl
until_zero-zeros (suc n) = refl

pub length-wire_put_str :
    (field_len : ℕ) (s : Bytes) → length (wire_put_str field_len s) ≡ field_len
unfolding wire_put_str
length-wire_put_str n s = omega (
  arith,
  length-append (take n s) (zeros (n - length s)),
  length-take n s,
  length-zeros (n - length s),
)

-- A string in a field of a fixed length, with any bytes behind it, is read back up to the length of
-- the field: as it is if it fits, and cut there if it does not.
pub wire_get_str-wire_put_str :
    (field_len : ℕ) (s rest : Bytes)
    → NoZero s
    → wire_get_str (wire_put_str field_len s ++ rest) 0 field_len ≡ take field_len s
unfolding wire_get_str
wire_get_str-wire_put_str n s rest h =
    let whole = length-wire_put_str n s in
    rw
      (
        take-append n (wire_put_str n s) rest (omega (arith, whole)),
        take_all n (wire_put_str n s) (omega (arith, whole)),
      )
      (unfold wire_put_str in
        until_zero-append (take n s) (zeros (n - length s)) (NoZero-take n s h)
        ∙ ap (λ z. take n s ++ z) (until_zero-zeros (n - length s))
        ∙ append-nil (take n s))
