-- ===== src/Wire/Tests.antt =====
-- Runs of the wire format (core/src/wire.c).
use trading_sor_mock.Base.{◌^◌, ◌<◌, ◌≡◌, refl, [], ◌∷◌, ◌++◌}
use trading_sor_mock.Base.Int.{negsuc}
use trading_sor_mock.Wire.{
  Bytes, wire_put_u8, wire_put_u16, wire_put_u32, wire_put_u64, wire_put_i32, wire_put_i64,
  wire_get_u8, wire_get_u16, wire_get_u32, wire_get_u64, wire_get_i32, wire_get_i64,
}
use trading_sor_mock.Wire.Integers.{IsInt64, IsInt32, wire_get-wire_put}

minus_one : wire_put_i32 (negsuc 0) ≡ 255 ∷ 255 ∷ 255 ∷ 255 ∷ []
unfolding wire_put_i32 wire_put_u32
minus_one = refl

abbrev behind : Bytes
behind = 9 ∷ []

wire_get-wire_put_example :
    (200 < 2 ^ 8 → wire_get_u8 (wire_put_u8 200 ++ behind) 0 ≡ 200)
    × (200 < 2 ^ 16 → wire_get_u16 (wire_put_u16 200 ++ behind) 0 ≡ 200)
    × (200 < 2 ^ 32 → wire_get_u32 (wire_put_u32 200 ++ behind) 0 ≡ 200)
    × (200 < 2 ^ 64 → wire_get_u64 (wire_put_u64 200 ++ behind) 0 ≡ 200)
    × (IsInt32 (negsuc 4) → wire_get_i32 (wire_put_i32 (negsuc 4) ++ behind) 0 ≡ negsuc 4)
    × (IsInt64 (negsuc 4) → wire_get_i64 (wire_put_i64 (negsuc 4) ++ behind) 0 ≡ negsuc 4)
wire_get-wire_put_example = wire_get-wire_put 200 (negsuc 4) behind
