-- ===== src/Book/Segments.antt =====
-- One segment of `build_segments` (exchange/src/book/order_book.c), and chains of segments that
-- follow one another without a gap.
use trading_sor_mock.Base.{
  ℕ, zero, suc, ◌+◌, ◌-◌, ◌*◌, ◌/◌, ◌%◌, ◌≤◌, ◌<◌, ◌≡◌, refl, ap, inl, inr, true, List, [], ◌∷◌,
  arith, subst, lt→ltb, le→ltb_false, compare_cases,
}
use trading_sor_mock.Types.{price_min, price_max}
use trading_sor_mock.Tick.{
  TickTable, krx_table, us_table, tick_size_in, is_valid_tick_in, tick_segment_end_in,
}
use trading_sor_mock.Tick.Laws.{segment_end_lem, segment_tick}
use trading_sor_mock.Book.Prices.{Segment, segment_at}
use native.Mathlib.Nat.{mul-div_cancel, div-mul-le_self, mod-add-div', le-div_iff_mul-le}

-- From index `idx` and price `p` on, the segments hold the valid prices up to `high`, with `count`
-- levels in all.
abbrev pub Chain : TickTable → (high idx p : ℕ) → List Segment → (count : ℕ) → Type 0
Chain t high idx p [] count = (count ≡ idx) × (high < p)
Chain t high idx p (s ∷ segs) count =
    (s.low ≡ p)
    × (s.base_idx ≡ idx)
    × (0 < s.tick)
    × (0 < s.count)
    × (p % s.tick ≡ 0)
    × (p + (s.count - 1) * s.tick ≤ high)
    × ((q : ℕ) → p ≤ q → q < p + s.count * s.tick → q ≤ high → tick_size_in t q ≡ s.tick)
    × Chain t high (idx + s.count) (p + s.count * s.tick) segs count

-- A multiple of `k` that is positive and at most `k` is `k`.
multiple_of_le : (d k : ℕ) → 0 < d * k → d * k ≤ k → d * k ≡ k
multiple_of_le zero k h l = omega arith
multiple_of_le (suc zero) k h l = omega arith
multiple_of_le (suc (suc d)) k h l = omega arith

pub sub-of_multiples : (a b k : ℕ) → b * k - a * k ≡ (b - a) * k
sub-of_multiples a b k = elim (compare_cases a b) [
  | inl h ↦ omega (arith, ap (λ (x : ℕ). x * k) (split a b (omega arith)))
  | inr h ↦ rw (zero_sub a b h) (grind arith)
]
  where
    split : (a b : ℕ) → a ≤ b → b ≡ (b - a) + a
    split a b h = omega arith

    zero_sub : (a b : ℕ) → b ≤ a → b - a ≡ 0
    zero_sub a b h = omega arith

add_one-sub_one : (x : ℕ) → x + 1 - 1 ≡ x
add_one-sub_one x = omega arith

pub mul_mono : (a b k : ℕ) → a ≤ b → a * k ≤ b * k
mul_mono a b k h = grind arith

-- Dividing by the tick keeps the order.
div_mono : (a b k : ℕ) → 0 < k → a ≤ b → a / k ≤ b / k
div_mono a b k hk h = (le-div_iff_mul-le hk).1 (omega (arith, div-mul-le_self a k))

-- The levels of a segment, from `p` to the last multiple of the tick, end there.
segment_last :
    (p last k : ℕ)
    → 0 < k
    → p ≤ last
    → p % k ≡ 0
    → p + (last - last % k - p) / k * k ≡ last - last % k
segment_last p last k hk le pm =
    let hp : p ≡ p / k * k = omega (arith, mod-add-div' p k) in
    let hl : last - last % k ≡ last / k * k = omega (arith, mod-add-div' last k) in
    let hd : last - last % k - p ≡ (last / k - p / k) * k =
      omega (arith, hp, hl, sub-of_multiples (p / k) (last / k) k) in
    rw hd (
      rw (mul-div_cancel (last / k - p / k) hk)
        (rw (← hd) (omega (arith, hl, mul_mono (p / k) (last / k) k (div_mono p last k hk le)))))

-- Below a multiple `e` of the tick the last one is `e - k`.
last_below : (e k : ℕ) → 0 < k → 0 < e → e % k ≡ 0 → e - 1 - (e - 1) % k + k ≡ e
last_below e k hk he em =
    let he' : e ≡ e / k * k = omega (arith, mod-add-div' e k) in
    let hl : e - 1 - (e - 1) % k ≡ (e - 1) / k * k = omega (arith, mod-add-div' (e - 1) k) in
    let hm : (e - 1) % k < k = omega arith in
    let hd : e - (e - 1 - (e - 1) % k) ≡ (e / k - (e - 1) / k) * k =
      omega (arith, he', hl, sub-of_multiples ((e - 1) / k) (e / k) k) in
    omega (arith, hm, hd, multiple_of_le (e / k - (e - 1) / k) k)

-- One segment, from the valid price `p` to the end of its band or of the day's range.
pub record SegmentOk (t : TickTable) (high idx p : ℕ) (s : Segment) : Type 0 where
  pub at_low : s.low ≡ p
  pub at_idx : s.base_idx ≡ idx
  pub tick_pos : 0 < s.tick
  pub count_pos : 0 < s.count
  pub aligned : p % s.tick ≡ 0
  pub within_high : p + (s.count - 1) * s.tick ≤ high
  pub next : (tick_segment_end_in t p ≤ high → p + s.count * s.tick ≡ tick_segment_end_in t p)
  pub final : (high < tick_segment_end_in t p → high < p + s.count * s.tick)

-- The end of a band is a multiple of its tick.
end_aligned :
    (t : TickTable) (p : ℕ)
    → is_valid_tick_in t p ≡ true
    → tick_segment_end_in t p ≤ price_max
    → tick_segment_end_in t p % tick_size_in t p ≡ 0
unfolding is_valid_tick_in tick_size_in tick_segment_end_in
end_aligned krx_table p v h = ground arith
end_aligned us_table p v h = ground arith

pub valid_price :
    (t : TickTable) (p : ℕ)
    → is_valid_tick_in t p ≡ true
    → (price_min ≤ p) × (p ≤ price_max) × (0 < tick_size_in t p) × (p % tick_size_in t p ≡ 0)
unfolding is_valid_tick_in tick_size_in
valid_price krx_table p v = ground arith
valid_price us_table p v = ground arith

module _ (t : TickTable) (high idx p : ℕ) (vp : is_valid_tick_in t p ≡ true)
    (vh : is_valid_tick_in t high ≡ true) (le : p ≤ high) where
  -- The segment that stops at the end of its band.
  segment_at_inner :
      tick_segment_end_in t p ≤ high → SegmentOk t high idx p (segment_at t high idx p)
  unfolding segment_at
  segment_at_inner h =
      let k = tick_size_in t p in
      let e = tick_segment_end_in t p in
      let ok_p = valid_price t p vp in
      let ok_h = valid_price t high vh in
      let ends = segment_end_lem t p ok_p.0 ok_p.1 in
      let width = segment_last p (e - 1) k ok_p.2 (omega (arith, ends.0)) ok_p.3 in
      let below =
        last_below e k ok_p.2 (omega (arith, ends.0))
          (end_aligned t p vp (omega (arith, ok_h.1))) in
      rw (lt→ltb (e - 1) high (omega (arith, ends.0))) (record {
        at_low = refl;
        at_idx = refl;
        tick_pos = ok_p.2;
        count_pos = omega arith;
        aligned = ok_p.3;
        within_high = rw add_one-sub_one (omega (arith, width, below));
        next = λ _. omega (arith, width, below);
        final = λ f. absurd (omega (arith, f));
      })

  -- The segment that stops at the high end of the range.
  segment_at_outer :
      high < tick_segment_end_in t p → SegmentOk t high idx p (segment_at t high idx p)
  unfolding segment_at
  segment_at_outer h =
      let k = tick_size_in t p in
      let e = tick_segment_end_in t p in
      let ok_p = valid_price t p vp in
      let ok_h = valid_price t high vh in
      let same = segment_tick t p high ok_p.0 ok_p.1 le h in
      let aligned : high % k ≡ 0 = subst (λ x. high % x ≡ 0) same ok_h.3 in
      let width = segment_last p high k ok_p.2 le ok_p.3 in
      rw (le→ltb_false (e - 1) high (omega arith)) (record {
        at_low = refl;
        at_idx = refl;
        tick_pos = ok_p.2;
        count_pos = omega arith;
        aligned = ok_p.3;
        within_high = rw add_one-sub_one (omega (arith, width, aligned));
        next = λ n. absurd (omega (arith, n));
        final = λ _. omega (arith, width, aligned, ok_p.2);
      })

  pub segment_at-SegmentOk : SegmentOk t high idx p (segment_at t high idx p)
  segment_at-SegmentOk = elim (compare_cases high (tick_segment_end_in t p)) [
    | inl h ↦ segment_at_outer h
    | inr h ↦ segment_at_inner h
  ]
