-- ===== src/Book/Chain.antt =====
-- Looking up prices and indices in a chain of segments (`price_to_index` and `index_to_price` of
-- exchange/src/book/order_book.c).
use trading_sor_mock.Base.{
  ℕ, suc, ◌+◌, ◌-◌, ◌*◌, ◌/◌, ◌%◌, ◌≤◌, ◌<◌, ◌≡◌, ap, ◌∙◌, inl, inr, true, some, List, [], ◌∷◌,
  arith, subst, lt→ltb, le→ltb_false, compare_cases,
}
use trading_sor_mock.Tick.{TickTable, tick_size_in, is_valid_tick_in}
use trading_sor_mock.Book.Prices.{Segment, index_in, find_price, find_index}
use trading_sor_mock.Book.Segments.{Chain, sub-of_multiples, mul_mono, valid_price}
use native.Mathlib.Nat.{add-mul-mod_self_right, mul-mod_left, mul-div_cancel, mod-add-div'}

-- In a segment, an index of its range and a price of its grid determine one another.
in_segment :
    (s : Segment) (q : ℕ)
    → 0 < s.tick
    → s.low ≤ q
    → q < s.low + s.count * s.tick
    → (q - s.low) % s.tick ≡ 0
    → (index_in s q ≡ some (s.base_idx + (q - s.low) / s.tick))
      × ((q - s.low) / s.tick < s.count)
      × (s.low + (q - s.low) / s.tick * s.tick ≡ q)
unfolding index_in
in_segment s q ht lo hi m =
    let whole = mod-add-div' (q - s.low) s.tick in
    (
      ground arith,
      (lt_of_scaled ((q - s.low) / s.tick) s.count s.tick (omega (arith, whole, m))),
      omega (arith, whole, m),
    )
  where
    lt_of_scaled : (a b k : ℕ) → a * k < b * k → a < b
    lt_of_scaled a b k h = elim (compare_cases a b) [ inl l ↦ l | inr g ↦ absurd (grind arith) ]

add-sub_left : (a b : ℕ) → a + b - a ≡ b
add-sub_left a b = omega arith

aligned_sub : (p q k : ℕ) → 0 < k → p ≤ q → p % k ≡ 0 → q % k ≡ 0 → (q - p) % k ≡ 0
aligned_sub p q k hk le hp hq =
    let e : q - p ≡ (q / k - p / k) * k =
      omega (arith, mod-add-div' q k, mod-add-div' p k, sub-of_multiples (p / k) (q / k) k) in
    rw e (mul-mod_left (q / k - p / k) k)

pub Chain-le :
    (t : TickTable) (high idx p : ℕ) (segs : List Segment) (count : ℕ)
    → Chain t high idx p segs count
    → idx ≤ count
Chain-le t high idx p [] count c = omega arith
Chain-le t high idx p (s ∷ segs) count c =
    omega (arith, Chain-le t high (idx + s.count) (p + s.count * s.tick) segs count c.7)

-- `find_price` finds each valid price of a chain, at an index where `find_index` finds it back.
pub find_price-Chain :
    (t : TickTable) (high idx p : ℕ) (segs : List Segment) (count : ℕ) (q : ℕ)
    → Chain t high idx p segs count
    → is_valid_tick_in t q ≡ true
    → p ≤ q
    → q ≤ high
    → (i : ℕ) × (find_price segs q ≡ some i) × (idx ≤ i) × (i < count) × (find_index segs i ≡ q)
unfolding find_price find_index
find_price-Chain t high idx p [] count q c v lo hi = absurd (omega (arith, c.1))
find_price-Chain t high idx p (s ∷ segs) count q c v lo hi =
    elim (compare_cases q (s.low + s.count * s.tick)) [
      | inl h ↦
          let same = c.6 q lo (omega (arith, h, c.0)) hi in
          let m = subst (λ x. q % x ≡ 0) same (valid_price t q v).3 in
          let m' = aligned_sub p q s.tick c.2 lo c.4 m in
          let (found, small, back) = in_segment s q c.2 (omega (arith, c.0)) h (rw (c.0) m') in
          let more = Chain-le t high (idx + s.count) (p + s.count * s.tick) segs count c.7 in
          let i = s.base_idx + (q - s.low) / s.tick in
          (
            i,
            rw (lt→ltb q (s.low + s.count * s.tick) h) found,
            omega (arith, c.1),
            omega (arith, c.1, small, more),
            rw (lt→ltb i (s.base_idx + s.count) (omega (arith, small)))
                (rw (add-sub_left s.base_idx ((q - s.low) / s.tick)) back),
          )
      | inr h ↦
          let (i, found, least, small, back) =
            find_price-Chain t high (idx + s.count) (p + s.count * s.tick) segs count q c.7 v
              (omega (arith, h, c.0)) hi in
          (
            i,
            rw (le→ltb_false q (s.low + s.count * s.tick) h) found,
            omega (arith, least),
            small,
            rw (le→ltb_false i (s.base_idx + s.count) (omega (arith, least, c.1))) back,
          )
    ]

valid_of_tick :
    (t : TickTable) (q k : ℕ)
    → 0 < k
    → tick_size_in t q ≡ k
    → q % k ≡ 0
    → is_valid_tick_in t q ≡ true
unfolding is_valid_tick_in
valid_of_tick t q k hk e m = rw e (ground arith)

-- The price at an index of a segment.
segment_price :
    (p k n i : ℕ)
    → 0 < k
    → i < n
    → p % k ≡ 0
    → (p + i * k ≤ p + (n - 1) * k) × (p + i * k < p + n * k) × ((p + i * k) % k ≡ 0)
segment_price p k n i hk hi hp = (
  omega (arith, mul_mono i (n - 1) k (omega arith)),
  omega (arith, mul_mono (suc i) n k hi),
  rw (add-mul-mod_self_right p i k) hp,
)

-- `find_index` gives a valid price of the chain's range at each index, which `find_price` finds.
pub find_index-Chain :
    (t : TickTable) (high idx p : ℕ) (segs : List Segment) (count i : ℕ)
    → Chain t high idx p segs count
    → idx ≤ i
    → i < count
    → let q = find_index segs i in
      (p ≤ q) × (q ≤ high) × (is_valid_tick_in t q ≡ true) × (find_price segs q ≡ some i)
unfolding find_price find_index
find_index-Chain t high idx p [] count i c lo hi = absurd (omega (arith, c.0))
find_index-Chain t high idx p (s ∷ segs) count i c lo hi =
    elim (compare_cases i (s.base_idx + s.count)) [
      | inl h ↦
          let x = i - s.base_idx in
          let q = s.low + x * s.tick in
          let low_aligned : s.low % s.tick ≡ 0 = rw (c.0) c.4 in
          let (top, inside, m) =
            segment_price s.low s.tick s.count x c.2 (omega (arith, h, c.1)) low_aligned in
          let high_ok : q ≤ high = omega (arith, top, c.5, c.0) in
          let tick = c.6 q (omega (arith, c.0)) (omega (arith, inside, c.0)) high_ok in
          let (found, small, back) =
            in_segment s q c.2 (omega arith) inside
              (aligned_sub s.low q s.tick c.2 (omega arith) low_aligned m) in
          let same : s.base_idx + (q - s.low) / s.tick ≡ i =
            rw (add-sub_left, mul-div_cancel x c.2) (omega (arith, c.1, lo)) in
          rw (lt→ltb i (s.base_idx + s.count) h) (
            omega (arith, c.0),
            high_ok,
            valid_of_tick t q s.tick c.2 tick m,
            rw (lt→ltb q (s.low + s.count * s.tick) inside) (found ∙ ap some same),
          )
      | inr h ↦
          let (above, below, valid, found) =
            find_index-Chain t high (idx + s.count) (p + s.count * s.tick) segs count i c.7
              (omega (arith, h, c.1)) hi in
          rw (le→ltb_false i (s.base_idx + s.count) h) (
            omega (arith, above),
            below,
            valid,
            rw
                (le→ltb_false (find_index segs i) (s.low + s.count * s.tick)
                  (omega (arith, above, c.0)))
                found,
          )
    ]

-- Along a chain a higher index is a higher price.
pub find_index_mono :
    (t : TickTable) (high idx p : ℕ) (segs : List Segment) (count i j : ℕ)
    → Chain t high idx p segs count
    → idx ≤ i
    → i < j
    → j < count
    → find_index segs i < find_index segs j
unfolding find_index
find_index_mono t high idx p [] count i j c lo lt hi = absurd (omega (arith, c.0))
find_index_mono t high idx p (s ∷ segs) count i j c lo lt hi =
    elim (compare_cases j (s.base_idx + s.count)) [
      | inl h ↦
          rw (lt→ltb j (s.base_idx + s.count) h, lt→ltb i (s.base_idx + s.count) (omega (arith, h)))
            (omega (
              arith,
              mul_mono (suc (i - s.base_idx)) (j - s.base_idx) s.tick (omega (arith, c.1)),
              c.2,
            ))
      | inr h ↦ elim (compare_cases i (s.base_idx + s.count)) [
        | inl g ↦
            let (above, _, _, _) =
              find_index-Chain t high (idx + s.count) (p + s.count * s.tick) segs count j c.7
                (omega (arith, h, c.1)) hi in
            rw (le→ltb_false j (s.base_idx + s.count) h, lt→ltb i (s.base_idx + s.count) g)
              (omega (
                arith,
                above,
                c.0,
                c.2,
                mul_mono (suc (i - s.base_idx)) s.count s.tick (omega (arith, g, c.1, lo)),
              ))
        | inr g ↦
            rw (le→ltb_false j (s.base_idx + s.count) h, le→ltb_false i (s.base_idx + s.count) g)
              (find_index_mono t high (idx + s.count) (p + s.count * s.tick) segs count i j c.7
                (omega (arith, g, c.1)) lt hi)
      ]
    ]

-- `find_price` finds valid prices only.
pub find_price_valid :
    (t : TickTable) (high idx p : ℕ) (segs : List Segment) (count q : ℕ) {i : ℕ}
    → Chain t high idx p segs count
    → p ≤ q
    → q ≤ high
    → find_price segs q ≡ some i
    → is_valid_tick_in t q ≡ true
unfolding find_price
find_price_valid t high idx p [] count q c lo hi e = cc
find_price_valid t high idx p (s ∷ segs) count q c lo hi e =
    elim (compare_cases q (s.low + s.count * s.tick)) [
      | inl h ↦
          let here = rw (lt→ltb q (s.low + s.count * s.tick) h) at e in
          let low_aligned : s.low % s.tick ≡ 0 = rw (c.0) c.4 in
          let m = index_in_aligned s q (omega (arith, c.0)) here in
          valid_of_tick t q s.tick c.2 (c.6 q lo (omega (arith, h, c.0)) hi)
            (rw (grow s.low q s.tick (omega (arith, c.0)) m) low_aligned)
      | inr h ↦
          find_price_valid t high (idx + s.count) (p + s.count * s.tick) segs count q c.7
            (omega (arith, h, c.0)) hi (rw (le→ltb_false q (s.low + s.count * s.tick) h) at e)
    ]
  where
    index_in_aligned :
        (s : Segment) (q : ℕ) {i : ℕ} → s.low ≤ q → index_in s q ≡ some i → (q - s.low) % s.tick ≡ 0
    index_in_aligned s q h e = ground arith

    grow : (l q k : ℕ) → l ≤ q → (q - l) % k ≡ 0 → q % k ≡ l % k
    grow l q k h m =
        let e : q ≡ l + (q - l) / k * k = omega (arith, mod-add-div' (q - l) k) in
        ap (λ x. x % k) e ∙ add-mul-mod_self_right l ((q - l) / k) k
