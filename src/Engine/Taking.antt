-- ===== src/Engine/Taking.antt =====
-- A round of `match_sweep` keeps the invariant of the book (exchange/src/match/match_engine.c).
use trading_sor_mock.Base.{
  ℕ, ◌≤◌, ◌<◌, ◌≡◌, refl, sym, ◌∙◌, ◌≢◌, inl, inr, false, ◌||◌, not, Option, none, some, List, [],
  ◌∷◌, arith, subst, leb, ◌==◌, Bool-cases, Option-cases,
}
use trading_sor_mock.Types.{Side, order_remaining_qty}
use trading_sor_mock.Level.{Slots, head?}
use trading_sor_mock.Level.Queue.{Linked}
use trading_sor_mock.Book.Prices.{OrderBook, price_to_index}
use trading_sor_mock.Book.Grid.{Grid}
use trading_sor_mock.Book.{book_front}
use trading_sor_mock.Book.Placed.{Placed, BookOk}
use trading_sor_mock.Book.Taking.{
  Standing, book_remove-BookOk, filled_order, book_reduce_qty-BookOk,
}
use trading_sor_mock.Pool.{OrderPool, set_next, is_in_use, order_pool_release}
use trading_sor_mock.Engine.State.{MatchEngine}
use trading_sor_mock.Engine.{take_maker}

-- The invariant of the book of an engine and the slots of its pool.
abbrev pub EngineOk : MatchEngine → Type 0
EngineOk eng = BookOk eng.pool.slots eng.book

head-Linked : (q : List ℕ) (p : ℕ) → head? q ≡ some p → Linked p q
head-Linked [] p e = absurd (none_is_none e)
  where
    none_is_none : ◌≢◌ {A = Option ℕ} none (some p)
    none_is_none e = cc e
head-Linked (x ∷ q) p e = inl (same e)
  where
    same : ◌≡◌ {A = Option ℕ} (some x) (some p) → x ≡ p
    same e = ground arith

-- The front of a level stands in it, on its side and at its price.
pub book_front-Standing :
    (slots : Slots) (book : OrderBook) (side : Side) (price p : ℕ)
    → Grid book
    → Placed slots book
    → book_front book side price ≡ some p
    → ((idx : ℕ) × Standing slots book idx p) × ((slots p).side ≡ side) × ((slots p).price ≡ price)
unfolding book_front
book_front-Standing slots book side price p g h e =
    elim (Option-cases (price_to_index book price)) [
      | inl none_at ↦ absurd (no_front (rw (none_at, book_front) at e))
      | inr (idx, at) ↦
          let linked = head-Linked (book.levels side idx).queue p (rw (at, book_front) at e) in
          let (same, at') = h.placed side idx p linked in
          (
            (idx, (at', subst (λ s. Linked p (book.levels s idx).queue) (sym same) linked)),
            same,
            sym (g.index_ok (slots p).price idx at').1 ∙ (g.index_ok price idx at).1,
          )
    ]
  where
    no_front : ◌≢◌ {A = Option ℕ} none (some p)
    no_front e = cc e

pub order_pool_release-slots :
    (pool : OrderPool) (i : ℕ) → (order_pool_release pool i).slots ≡ pool.slots
unfolding order_pool_release set_next
order_pool_release-slots pool i =
    elim (Bool-cases (leb pool.capacity i || not (is_in_use (pool.next i)))) [
      | inl e ↦ rw (e) refl
      | inr e ↦ rw (e) refl
    ]

-- Taking the whole open quantity of a standing order, or a part of it, keeps the invariant.
pub take_maker-EngineOk :
    (eng : MatchEngine) (idx p fill_qty : ℕ)
    → EngineOk eng
    → Standing eng.pool.slots eng.book idx p
    → 0 < fill_qty
    → fill_qty ≤ order_remaining_qty (eng.pool.slots p)
    → EngineOk (take_maker eng p fill_qty)
unfolding take_maker
take_maker-EngineOk eng idx p fill_qty h standing pos le =
    let slots = eng.pool.slots in
    elim (Bool-cases (fill_qty == order_remaining_qty (slots p))) [
      | inl e ↦
          rw (e, order_pool_release-slots)
            (book_remove-BookOk slots eng.book idx p (filled_order (slots p) fill_qty) h standing
              (refl, refl))
      | inr e ↦ rw (e) (
          book_reduce_qty-BookOk slots eng.book idx p fill_qty h standing pos
            (less fill_qty (order_remaining_qty (slots p)) e le))
    ]
  where
    less : (a b : ℕ) → (a == b) ≡ false → a ≤ b → a < b
    less a b e le = ground arith
