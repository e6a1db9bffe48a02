-- ===== src/Msg/Codec.antt =====
-- What is written field by field is read field by field (core/src/msg.c).
use trading_sor_mock.Base.{
  ℕ, zero, suc, ◌+◌, ◌*◌, ◌^◌, ◌≤◌, ◌<◌, ◌≡◌, refl, ap, ◌∙◌, Bool, true, false, List, [], ◌∷◌, ◌++◌,
  arith, append_assoc, le→ltb_false, ==_refl, length, drop, length-append, All, take_all,
}
use trading_sor_mock.Base.Int.{ℤ}
use trading_sor_mock.Types.{Result, done}
use trading_sor_mock.Wire.{
  Bytes, wire_put_u8, wire_put_u32, wire_put_u64, to_unsigned, wire_put_i32, wire_put_i64,
  wire_get_u8, wire_get_u32, wire_get_u64, from_unsigned, wire_get_i32, wire_get_i64, wire_put_str,
  wire_get_str,
}
use trading_sor_mock.Wire.Integers.{
  u32_bytes, u64_bytes, IsInt64, IsInt32, from_unsigned-to_unsigned_64,
  from_unsigned-to_unsigned_32, to_unsigned_64-lt, to_unsigned_32-lt, NoZero, length-wire_put_str,
  wire_get_str-wire_put_str,
}
use trading_sor_mock.Msg.Reader.{
  Reader, get_u8, get_u64, get_i32, get_i64, get_str, put_bool, get_bool, put_i32s, get_i32s,
  put_i64s, get_i64s, enc_check, dec_check, unless_failed,
}

-- The bytes `w` are `n` in number, and a reader at them gives `a` and moves behind them.
pub record Codes {A : Type 0} (n : ℕ) (w : Bytes) (g : Reader A) (a : A) : Type 0 where
  pub size : length w ≡ n
  pub reads : (rest : Bytes) → g (w ++ rest) ≡ (a, rest)

-- A pointer that has moved past `rest`.
abbrev at_rest : {A : Type 0} → Bytes → A → A × Bytes
at_rest rest a = (a, rest)

-- The number of the bytes of fields one behind the other.
pub record Sized (n : ℕ) (w : Bytes) : Type 0 where
  pub counted : length w ≡ n

pub no_field-Sized : Sized 0 []
no_field-Sized = record { counted = refl }

pub field-Sized :
    {A : Type 0} {m n : ℕ} {v w : Bytes} {g : Reader A} {a : A}
    → Codes m v g a
    → Sized n w
    → Sized (m + n) (v ++ w)
field-Sized {v = v} {w = w} codes rest = record {
  counted = omega (arith, length-append v w, codes.size, rest.counted);
}

pub get_u8-Codes : (v : ℕ) → v < 2 ^ 8 → Codes 1 (wire_put_u8 v) get_u8 v
unfolding get_u8 wire_put_u8 wire_get_u8
get_u8-Codes v h = record { size = refl; reads = λ rest. ap (at_rest rest) (omega (arith, h)) }

pub get_u64-Codes : (v : ℕ) → v < 2 ^ 64 → Codes 8 (wire_put_u64 v) get_u64 v
unfolding get_u64 wire_put_u64 wire_get_u64
get_u64-Codes v h = record { size = refl; reads = λ rest. ap (at_rest rest) (u64_bytes v h) }

pub get_i32-Codes : (v : ℤ) → IsInt32 v → Codes 4 (wire_put_i32 v) get_i32 v
unfolding get_i32 wire_put_u32 wire_get_u32 wire_put_i32 wire_get_i32
get_i32-Codes v h = record {
  size = refl;
  reads = λ rest.
      ap (λ u. at_rest rest (from_unsigned (2 ^ 31) u))
        (u32_bytes (to_unsigned (2 ^ 32) v) (to_unsigned_32-lt v))
      ∙ ap (at_rest rest) (from_unsigned-to_unsigned_32 v h);
}

pub get_i64-Codes : (v : ℤ) → IsInt64 v → Codes 8 (wire_put_i64 v) get_i64 v
unfolding get_i64 wire_put_u64 wire_get_u64 wire_put_i64 wire_get_i64
get_i64-Codes v h = record {
  size = refl;
  reads = λ rest.
      ap (λ u. at_rest rest (from_unsigned (2 ^ 63) u))
        (u64_bytes (to_unsigned (2 ^ 64) v) (to_unsigned_64-lt v))
      ∙ ap (at_rest rest) (from_unsigned-to_unsigned_64 v h);
}

pub get_bool-Codes : (b : Bool) → Codes 1 (put_bool b) get_bool b
unfolding get_bool wire_put_u8 wire_get_u8
get_bool-Codes true = record { size = refl; reads = λ rest. refl }
get_bool-Codes false = record { size = refl; reads = λ rest. refl }

-- A string that the field holds: no zero byte in it, and not longer than the field.
abbrev pub StrFits : ℕ → Bytes → Type 0
StrFits n s = NoZero s × (length s ≤ n)

drop_written : (n : ℕ) (w rest : Bytes) → length w ≡ n → drop n (w ++ rest) ≡ rest
drop_written zero [] rest e = refl
drop_written zero (x ∷ w) rest e = absurd (omega (arith, e))
drop_written (suc n) [] rest e = absurd (omega (arith, e))
drop_written (suc n) (x ∷ w) rest e = drop_written n w rest (omega (arith, e))

pub get_str-Codes : (n : ℕ) (s : Bytes) → StrFits n s → Codes n (wire_put_str n s) (get_str n) s
unfolding get_str
get_str-Codes n s (clean, short) = record {
  size = length-wire_put_str n s;
  reads = λ rest.
      ap (λ p. at_rest p (wire_get_str (wire_put_str n s ++ rest) 0 n))
        (drop_written n (wire_put_str n s) rest (length-wire_put_str n s))
      ∙ ap (at_rest rest) (wire_get_str-wire_put_str n s rest clean ∙ take_all n s short);
}

-- A reader of `count` elements after the reader of one.
cons_read : {A : Type 0} → A → List A × Bytes → List A × Bytes
cons_read a r = (a ∷ r.0, r.1)

pub get_i32s-Codes :
    (vs : List ℤ) {n : ℕ}
    → length vs ≡ n
    → All IsInt32 vs
    → Codes (n * 4) (put_i32s vs) (get_i32s n) vs
unfolding put_i32s get_i32s cons_read
get_i32s-Codes [] {n = zero} e _ = record { size = refl; reads = λ rest. refl }
get_i32s-Codes [] {n = suc n} e _ = absurd (omega (arith, e))
get_i32s-Codes (v ∷ vs) {n = zero} e _ = absurd (omega (arith, e))
get_i32s-Codes (v ∷ vs) {n = suc n} e (h, hs) =
    let one = get_i32-Codes v h in
    let others = get_i32s-Codes vs {n = n} (omega (arith, e)) hs in
    record {
      size = omega (arith, length-append (wire_put_i32 v) (put_i32s vs), one.size, others.size);
      reads = λ rest.
          ap (get_i32s (suc n)) (append_assoc (wire_put_i32 v) (put_i32s vs) rest)
          ∙ ap (λ (r : ℤ × Bytes). cons_read r.0 (get_i32s n r.1)) (one.reads (put_i32s vs ++ rest))
          ∙ ap (cons_read v) (others.reads rest);
    }

pub get_i64s-Codes :
    (vs : List ℤ) {n : ℕ}
    → length vs ≡ n
    → All IsInt64 vs
    → Codes (n * 8) (put_i64s vs) (get_i64s n) vs
unfolding put_i64s get_i64s cons_read
get_i64s-Codes [] {n = zero} e _ = record { size = refl; reads = λ rest. refl }
get_i64s-Codes [] {n = suc n} e _ = absurd (omega (arith, e))
get_i64s-Codes (v ∷ vs) {n = zero} e _ = absurd (omega (arith, e))
get_i64s-Codes (v ∷ vs) {n = suc n} e (h, hs) =
    let one = get_i64-Codes v h in
    let others = get_i64s-Codes vs {n = n} (omega (arith, e)) hs in
    record {
      size = omega (arith, length-append (wire_put_i64 v) (put_i64s vs), one.size, others.size);
      reads = λ rest.
          ap (get_i64s (suc n)) (append_assoc (wire_put_i64 v) (put_i64s vs) rest)
          ∙ ap (λ (r : ℤ × Bytes). cons_read r.0 (get_i64s n r.1)) (one.reads (put_i64s vs ++ rest))
          ∙ ap (cons_read v) (others.reads rest);
    }

-- An encoder's answer is `n` bytes from which a decoder recovers the message.
abbrev pub Recovers : {A : Type 0} → ℕ → Result Bytes → (Bytes → Result A) → A → Type 0
Recovers n encoded decode a =
    (w : Bytes) × (encoded ≡ done w) × (length w ≡ n) × (decode w ≡ done a)

pub codec-Recovers :
    {A : Type 0} {a : A} (w : Bytes) (g : Reader A) (n cap : ℕ)
    → n ≤ cap
    → Sized n w
    → (g w).0 ≡ a
    → Recovers n
        (unless_failed (enc_check cap n) w)
        (λ buf. unless_failed (dec_check (length buf) n) (g buf).0)
        a
unfolding enc_check dec_check
codec-Recovers w g n cap room sized read = (
  w,
  rw (le→ltb_false cap n room) refl,
  sized.counted,
  rw (sized.counted, ==_refl n) (ap done read),
)
