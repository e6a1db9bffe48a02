-- ===== src/Book/Layout.antt =====
-- The segments that `build_segments` lays out (exchange/src/book/order_book.c), from the low end of
-- the band to the high end.
use trading_sor_mock.Base.{
  ℕ, zero, suc, ◌+◌, ◌*◌, ◌%◌, ◌≤◌, ◌<◌, ◌≡◌, refl, sym, inl, inr, true, some, List, [], ◌∷◌, arith,
  subst, ltb, if◌then◌else◌, le→leb, compare_cases,
}
use trading_sor_mock.Types.{price_min, price_max}
use trading_sor_mock.Tick.{
  TickTable, TickRow, rows_of, tick_size_in, is_valid_tick_in, row_end, tick_segment_end_in,
}
use trading_sor_mock.Tick.Laws.{segment_end_lem, segment_tick}
use trading_sor_mock.Book.Prices.{Segment, segment_at, segments_from}
use trading_sor_mock.Book.Segments.{Chain, SegmentOk, valid_price, segment_at-SegmentOk}

-- Rows whose band reaches above a price.
unfoldable pub rows_above : List TickRow → ℕ → ℕ
rows_above [] p = 0
rows_above (r ∷ rows) p = if ltb p r.below then suc (rows_above rows p) else rows_above rows p

rows_above_mono : (rows : List TickRow) (p q : ℕ) → p ≤ q → rows_above rows q ≤ rows_above rows p
unfolding rows_above
rows_above_mono [] p q h = omega arith
rows_above_mono (r ∷ rows) p q h = ground (arith, rows_above_mono rows p q h)

row_end_gt : (rows : List TickRow) (p : ℕ) → 0 < row_end rows p → p < row_end rows p
unfolding row_end
row_end_gt [] p h = absurd (omega arith)
row_end_gt (r ∷ rows) p h = ground (arith, row_end_gt rows p)

rows_above_end :
    (rows : List TickRow) (p : ℕ)
    → 0 < row_end rows p
    → rows_above rows (row_end rows p) < rows_above rows p
unfolding rows_above row_end
rows_above_end [] p h = absurd (omega arith)
rows_above_end (r ∷ rows) p h =
    ground (arith, rows_above_end rows p, row_end_gt rows p, rows_above_mono rows p r.below)

-- Each round of `build_segments` leaves a band behind.
rows_above_segment :
    (t : TickTable) (p : ℕ)
    → price_min ≤ p
    → p ≤ price_max
    → rows_above (rows_of t) (tick_segment_end_in t p) < rows_above (rows_of t) p
unfolding tick_segment_end_in
rows_above_segment t p lo hi =
    let pos_end = (segment_end_lem t p lo hi).0 in
    ground (arith, pos_end, rows_above_end (rows_of t) p)

segments_from_past :
    (t : TickTable) (high room idx p : ℕ)
    → high < p
    → segments_from t high room idx p ≡ some ([], idx)
unfolding segments_from
segments_from_past t high zero idx p h = ground arith
segments_from_past t high (suc room) idx p h = ground arith

-- What the loop of `build_segments` makes from a price `p` of the band: a chain of segments.
abbrev Laid : TickTable → (high room idx p : ℕ) → Type 0
Laid t high room idx p =
    (segs : List Segment) × (count : ℕ) × (segments_from t high room idx p ≡ some (segs, count))
    × Chain t high idx p segs count

-- With room for the bands above `p`, `build_segments` succeeds, and its segments are a chain.
pub segments_from-Laid :
    (t : TickTable) (high room idx p : ℕ)
    → is_valid_tick_in t high ≡ true
    → is_valid_tick_in t p ≡ true
    → p ≤ high
    → rows_above (rows_of t) p ≤ room
    → Laid t high room idx p
unfolding segments_from
segments_from-Laid t high zero idx p vh vp le h =
    let ok_p = valid_price t p vp in absurd (omega (arith, rows_above_segment t p ok_p.0 ok_p.1))
segments_from-Laid t high (suc room) idx p vh vp le h =
    elim (compare_cases high (tick_segment_end_in t p)) [
      | inl outer ↦ (
        s ∷ [],
        idx + s.count,
        rw (
          le→leb p high le,
          segments_from_past t high room (idx + s.count) (tick_segment_end_in t p) outer,
        ),
        (
          ok_s.at_low,
          ok_s.at_idx,
          ok_s.tick_pos,
          ok_s.count_pos,
          ok_s.aligned,
          ok_s.within_high,
          band,
          (refl, ok_s.final outer),
        ),
      )
      | inr inner ↦
          let below = rows_above_segment t p ok_p.0 ok_p.1 in
          let ends = segment_end_lem t p ok_p.0 ok_p.1 in
          let ok_h = valid_price t high vh in
          let (segs, count, eq, chain) =
            segments_from-Laid t high room (idx + s.count) (tick_segment_end_in t p) vh
              (ends.2 ok_p.3 (omega (arith, ok_h.1, inner))) inner (omega (arith, below)) in
          (
            s ∷ segs,
            count,
            rw (le→leb p high le, eq),
            (
              ok_s.at_low,
              ok_s.at_idx,
              ok_s.tick_pos,
              ok_s.count_pos,
              ok_s.aligned,
              ok_s.within_high,
              band,
              subst (λ x. Chain t high (idx + s.count) x segs count) (sym (ok_s.next inner)) chain,
            ),
          )
    ]
  where
    s : Segment
    s = segment_at t high idx p

    ok_p : (price_min ≤ p) × (p ≤ price_max) × (0 < tick_size_in t p) × (p % tick_size_in t p ≡ 0)
    ok_p = valid_price t p vp

    ok_s : SegmentOk t high idx p s
    ok_s = segment_at-SegmentOk t high idx p vp vh le

    band : (q : ℕ) → p ≤ q → q < p + s.count * s.tick → q ≤ high → tick_size_in t q ≡ s.tick
    band q a b c =
        segment_tick t p q ok_p.0 ok_p.1 a (elim (compare_cases high (tick_segment_end_in t p)) [
          | inl outer ↦ omega (arith, outer, c)
          | inr inner ↦ omega (arith, b, ok_s.next inner)
        ])
