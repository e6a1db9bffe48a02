-- ===== src/Msg/Reader.antt =====
-- The read pointer of the decoders of core/src/msg.c.
use trading_sor_mock.Base.{
  ℕ, zero, suc, Bool, not, List, [], ◌∷◌, ◌++◌, ltb, ◌==◌, if◌then◌else◌, drop,
}
use trading_sor_mock.Base.Int.{ℤ}
use trading_sor_mock.Types.{ErrorCode, ok, invalid_arg, is_ok, Result, done, fail}
use trading_sor_mock.Wire.{
  Bytes, wire_put_u8, wire_put_i32, wire_put_i64, wire_get_u8, wire_get_u64, wire_get_i32,
  wire_get_i64, wire_get_str,
}

-- The bytes of the writes of an encoder, one behind the other.
abbrev pub written : List Bytes → Bytes
written [] = []
written (w ∷ ws) = w ++ written ws

-- Reads at the pointer and gives it moved.
abbrev pub Reader : Type 0 → Type 0
Reader A = Bytes → A × Bytes

abbrev pub pure : {A : Type 0} → A → Reader A
pure a p = (a, p)

infixl 5 ◌>>=◌
unfoldable pub ◌>>=◌ : {A B : Type 0} → Reader A → (A → Reader B) → Reader B
◌>>=◌ m f p = f (m p).0 (m p).1

-- `x = wire_get_u8(p); p += 1`, and so on.
unfoldable pub get_u8 : Reader ℕ
get_u8 p = (wire_get_u8 p 0, drop 1 p)

unfoldable pub get_u64 : Reader ℕ
get_u64 p = (wire_get_u64 p 0, drop 8 p)

unfoldable pub get_i32 : Reader ℤ
get_i32 p = (wire_get_i32 p 0, drop 4 p)

unfoldable pub get_i64 : Reader ℤ
get_i64 p = (wire_get_i64 p 0, drop 8 p)

unfoldable pub get_str : (field_len : ℕ) → Reader Bytes
get_str field_len p = (wire_get_str p 0 field_len, drop field_len p)

-- A bool goes as a byte: `m->last ? 1u : 0u`, and `wire_get_u8(p++) != 0`.
abbrev pub put_bool : Bool → Bytes
put_bool b = wire_put_u8 (if b then 1 else 0)

unfoldable pub get_bool : Reader Bool
get_bool p = (not (wire_get_u8 p 0 == 0), drop 1 p)

-- The loops over the elements of an array.
unfoldable pub put_i32s : List ℤ → Bytes
put_i32s [] = []
put_i32s (v ∷ vs) = wire_put_i32 v ++ put_i32s vs

unfoldable pub get_i32s : (count : ℕ) → Reader (List ℤ)
get_i32s zero p = ([], p)
get_i32s (suc n) p = ((get_i32 p).0 ∷ (get_i32s n (get_i32 p).1).0, (get_i32s n (get_i32 p).1).1)

unfoldable pub put_i64s : List ℤ → Bytes
put_i64s [] = []
put_i64s (v ∷ vs) = wire_put_i64 v ++ put_i64s vs

unfoldable pub get_i64s : (count : ℕ) → Reader (List ℤ)
get_i64s zero p = ([], p)
get_i64s (suc n) p = ((get_i64 p).0 ∷ (get_i64s n (get_i64 p).1).0, (get_i64s n (get_i64 p).1).1)

unfoldable pub enc_check : (cap need : ℕ) → ErrorCode
enc_check cap need = if ltb cap need then invalid_arg else ok

unfoldable pub dec_check : (len need : ℕ) → ErrorCode
dec_check len need = if not (len == need) then invalid_arg else ok

-- `if (rc != ERR_OK) return rc`, and otherwise the result.
abbrev pub unless_failed : {A : Type 0} → ErrorCode → A → Result A
unless_failed rc a = if is_ok rc then done a else fail rc
