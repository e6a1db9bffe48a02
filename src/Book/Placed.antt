-- ===== src/Book/Placed.antt =====
-- The orders of a book stand at the level of their side and price
-- (exchange/src/book/order_book.c).
use trading_sor_mock.Base.{
  ℕ, ◌≡◌, refl, sym, ap, ◌∙◌, ◌≢◌, ◌⊎◌, inl, inr, false, some, List, [], ◌∷◌, arith, subst, ◌==◌,
  ==_iff, ==_refl, Bool-cases,
}
use trading_sor_mock.Types.{Side, buy, sell, Order, side_eq}
use trading_sor_mock.Level.{Slots, store, PriceLevel}
use trading_sor_mock.Level.Queue.{Absent, Linked, queue_qty-store, AllOpen-store}
use trading_sor_mock.Level.Laws.{LevelOk}
use trading_sor_mock.Book.Prices.{OrderBook, price_to_index}
use trading_sor_mock.Book.Grid.{Grid}
use trading_sor_mock.Book.{set_level, set_best}
use trading_sor_mock.Book.Best.{Cached}
use trading_sor_mock.Book.Remove.{side_same}

-- Every level agrees with its queue, and every linked order is on its side and at its price.
pub record Placed (slots : Slots) (book : OrderBook) : Type 0 where
  pub levels_ok : (s : Side) (i : ℕ) → LevelOk slots (book.levels s i)
  pub placed :
      (s : Side) (i p : ℕ)
      → Linked p (book.levels s i).queue
      → ((slots p).side ≡ s) × (price_to_index book (slots p).price ≡ some i)

-- A book with its slots: the prices, the cached best ones and the orders.
pub record BookOk (slots : Slots) (book : OrderBook) : Type 0 where
  pub grid : Grid book
  pub cached : Cached book
  pub orders : Placed slots book

-- No level links the slot.
abbrev pub Unlinked : ℕ → OrderBook → Type 0
Unlinked p book = (s : Side) (i : ℕ) → Absent p (book.levels s i).queue

-- No level of the second book links a slot that the first one does not.
abbrev pub NoNew : OrderBook → OrderBook → Type 0
NoNew book book' =
    (s : Side) (i x : ℕ) → Linked x (book'.levels s i).queue → Linked x (book.levels s i).queue

pub Absent-intro : (p : ℕ) (q : List ℕ) → ¬ Linked p q → Absent p q
Absent-intro p [] h = tt
Absent-intro p (x ∷ q) h = ((λ e. h (inl e)), Absent-intro p q (λ l. h (inr l)))

-- A write to an order that is not linked leaves the level as it is.
pub LevelOk-store :
    (slots : Slots) (level : PriceLevel) (p : ℕ) (o : Order)
    → Absent p level.queue
    → LevelOk slots level
    → LevelOk (store slots p o) level
LevelOk-store slots level p o absent v = record {
  total = v.total ∙ sym (queue_qty-store slots p o level.queue absent);
  count = v.count;
  distinct = v.distinct;
  open_orders = AllOpen-store slots p o level.queue absent v.open_orders;
}

pub set_best-Placed :
    (slots : Slots) (book : OrderBook) (side : Side) (price : ℕ)
    → Placed slots book
    → Placed slots (set_best book side price)
unfolding set_best price_to_index
set_best-Placed slots book side price h = record { levels_ok = h.levels_ok; placed = h.placed }

differs : (s side : Side) → side_eq s side ≡ false → s ≢ side
differs buy buy e same = cc e
differs sell sell e same = cc e
differs buy sell e same = cc same
differs sell buy e same = cc same

-- The level at an index after a write: the written one, or another one as before.
pub write_cases :
    (book : OrderBook) (side : Side) (idx : ℕ) (level : PriceLevel) (s : Side) (j : ℕ)
    → ((s ≡ side) × (j ≡ idx) × ((set_level book side idx level).levels s j ≡ level))
      ⊎ ((s ≡ side → j ≢ idx) × ((set_level book side idx level).levels s j ≡ book.levels s j))
unfolding set_level
write_cases book side idx level s j = elim (Bool-cases (side_eq s side)) [
  | inr e ↦ inr ((λ same. absurd (differs s side e same)), rw e refl)
  | inl e ↦ elim (Bool-cases (j == idx)) [
    | inr f ↦ inr ((λ _ same. absurd (not_equal same f)), rw (e, f) refl)
    | inl f ↦ inl (side_same s side e, (==_iff j idx).0 f, rw (e, f) refl)
  ]
]
  where
    not_equal : j ≡ idx → (j == idx) ≢ false
    not_equal same f = ground arith

-- What is written is read.
pub level_written :
    (book : OrderBook) (side : Side) (idx : ℕ) (level : PriceLevel)
    → (set_level book side idx level).levels side idx ≡ level
unfolding set_level
level_written book buy idx level = rw (==_refl idx) refl
level_written book sell idx level = rw (==_refl idx) refl

-- A linked order is at no other level.
pub Linked-once :
    (slots : Slots) (book : OrderBook) (s s' : Side) (i j p : ℕ)
    → Placed slots book
    → Linked p (book.levels s i).queue
    → (s' ≡ s → j ≢ i)
    → Absent p (book.levels s' j).queue
Linked-once slots book s s' i j p h here apart = Absent-intro p (book.levels s' j).queue (λ there.
    let (side, at) = h.placed s i p here in
    let (side', at') = h.placed s' j p there in
    apart (sym side' ∙ side) (some_injective (sym at' ∙ at)))
  where
    some_injective : {a b : ℕ} → some a ≡ some b → a ≡ b
    some_injective e = ground arith

-- The fields of an order that say where it stands.
abbrev pub SamePlace : Order → Order → Type 0
SamePlace o o' = (o.side ≡ o'.side) × (o.price ≡ o'.price)

store_place :
    (slots : Slots) (p : ℕ) (o : Order) (x : ℕ)
    → SamePlace o (slots p)
    → SamePlace (store slots p o x) (slots x)
unfolding store
store_place slots p o x same = elim (Bool-cases (x == p)) [
  | inr e ↦ rw (e) (refl, refl)
  | inl e ↦ rw (e) (
      subst (λ y. (o.side ≡ (slots y).side) × (o.price ≡ (slots y).price)) (sym ((==_iff x p).0 e))
        same)
]

-- A write of a level in which no order is new, with a write to one order that was in it.
pub set_level-Placed :
    (slots : Slots) (book : OrderBook) (s : Side) (i p : ℕ) (o : Order) (level : PriceLevel)
    → Placed slots book
    → Linked p (book.levels s i).queue
    → SamePlace o (slots p)
    → LevelOk (store slots p o) level
    → ((x : ℕ) → Linked x level.queue → Linked x (book.levels s i).queue)
    → Placed (store slots p o) (set_level book s i level)
unfolding price_to_index set_level
set_level-Placed slots book s i p o level h here same good kept = record {
  levels_ok = λ s' j. elim (write_cases book s i level s' j) [
    | inl (_, _, e) ↦ subst (LevelOk (store slots p o)) (sym e) good
    | inr (apart, e) ↦ subst (LevelOk (store slots p o)) (sym e) (
        LevelOk-store slots (book.levels s' j) p o (Linked-once slots book s s' i j p h here apart)
          (h.levels_ok s' j))
  ];
  placed = λ s' j x there.
      let (side, price) = store_place slots p o x same in
      let (side', at) = h.placed s' j x (elim (write_cases book s i level s' j) [
        | inr (_, e) ↦ subst (λ (l : PriceLevel). Linked x l.queue) e there
        | inl (es, ej, e) ↦
            subst (λ (l : PriceLevel). Linked x l.queue) (ap2_levels s' s j i (sym es) (sym ej))
              (kept x (subst (λ (l : PriceLevel). Linked x l.queue) e there))
      ]) in
      (side ∙ side', ap (price_to_index book) price ∙ at);
}
  where
    ap2_levels : (s' s : Side) (j i : ℕ) → s ≡ s' → i ≡ j → book.levels s i ≡ book.levels s' j
    ap2_levels s' s j i es ei = ap (λ x. book.levels x i) es ∙ ap (book.levels s') ei
