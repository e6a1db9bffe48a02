-- ===== src/Book/Inserting.antt =====
-- Putting an order into the book keeps the book's invariant (`book_insert` of
-- exchange/src/book/order_book.c).
use trading_sor_mock.Base.{
  ℕ, ◌-◌, ◌≡◌, refl, sym, ap, ◌∙◌, ◌≢◌, ◌⊎◌, inl, inr, Bool, true, false, ◌||◌, some, List, [], ◌∷◌,
  ◌++◌, subst, ltb, ◌==◌, if◌then◌else◌, Bool-cases, Option-cases,
}
use trading_sor_mock.Types.{Side, int32_max, Order, order_remaining_qty, is_ok}
use trading_sor_mock.Level.{Slots, store, PriceLevel, level_push_back}
use trading_sor_mock.Level.Queue.{Absent, Linked, store_other, Absent-ne}
use trading_sor_mock.Level.Laws.{LevelOk, level_push_back-LevelOk}
use trading_sor_mock.Book.Prices.{OrderBook, book_price_none, price_to_index}
use trading_sor_mock.Book.Grid.{Grid}
use trading_sor_mock.Book.{set_level, set_best, improves, book_insert}
use trading_sor_mock.Book.Placed.{
  Placed, BookOk, Unlinked, LevelOk-store, set_best-Placed, write_cases, level_written,
}
use trading_sor_mock.Book.Taking.{Standing}

-- A write to a slot that is not linked.
pub store-BookOk :
    (slots : Slots) (book : OrderBook) (p : ℕ) (o : Order)
    → Unlinked p book
    → BookOk slots book
    → BookOk (store slots p o) book
store-BookOk slots book p o unlinked h = record {
  grid = h.grid;
  cached = h.cached;
  orders = record {
    levels_ok =
        λ s i. LevelOk-store slots (book.levels s i) p o (unlinked s i) (h.orders.levels_ok s i);
    placed = λ s i x l.
        let ne = Absent-ne_of x p (book.levels s i).queue (unlinked s i) l in
        subst (λ (y : Order). (y.side ≡ s) × (price_to_index book y.price ≡ some i))
          (sym (store_other slots p x o ne)) (h.orders.placed s i x l);
  };
}
  where
    Absent-ne_of : (x p : ℕ) (q : List ℕ) → Absent p q → Linked x q → x ≢ p
    Absent-ne_of x p q absent l e = Absent-ne p x q absent l (sym e)

-- The slots of a queue after one is put behind them.
Linked-snoc : (x p : ℕ) (q : List ℕ) → Linked x (q ++ (p ∷ [])) → Linked x q ⊎ (x ≡ p)
Linked-snoc x p [] (inl e) = inr (sym e)
Linked-snoc x p [] (inr l) = elim l [ ]
Linked-snoc x p (y ∷ q) (inl e) = inl (inl e)
Linked-snoc x p (y ∷ q) (inr l) = elim (Linked-snoc x p q l) [ inl m ↦ inl (inr m) | inr e ↦ inr e ]

pub Linked-last : (p : ℕ) (q : List ℕ) → Linked p (q ++ (p ∷ []))
Linked-last p [] = inl refl
Linked-last p (y ∷ q) = inr (Linked-last p q)

-- What an insertion does: nothing, or the order is behind the others at its level.
pub record Inserted (slots : Slots) (book book' : OrderBook) (p : ℕ) : Type 0 where
  pub orders_ok : Placed slots book'
  pub new_only :
      (s : Side) (i x : ℕ)
      → Linked x (book'.levels s i).queue
      → Linked x (book.levels s i).queue ⊎ (x ≡ p)
  pub stands : (idx : ℕ) × Standing slots book' idx p

set_best-Inserted :
    (slots : Slots) (book book' : OrderBook) (p : ℕ) (s : Side) (price : ℕ)
    → Inserted slots book book' p
    → Inserted slots book (set_best book' s price) p
unfolding set_best price_to_index
set_best-Inserted slots book book' p s price h = record {
  orders_ok = set_best-Placed slots book' s price h.orders_ok;
  new_only = h.new_only;
  stands = h.stands;
}

-- The level with the order put behind.
set_level-Inserted :
    (slots : Slots) (book : OrderBook) (idx p : ℕ) (level : PriceLevel)
    → Placed slots book
    → price_to_index book (slots p).price ≡ some idx
    → LevelOk slots level
    → level.queue ≡ (book.levels (slots p).side idx).queue ++ (p ∷ [])
    → Inserted slots book (set_level book (slots p).side idx level) p
unfolding price_to_index set_level
set_level-Inserted slots book idx p level h at good behind =
    let side = (slots p).side in
    let new_only : (s : Side) (i x : ℕ)
        → Linked x ((set_level book side idx level).levels s i).queue
        → Linked x (book.levels s i).queue ⊎ (x ≡ p) =
      λ s i x l. elim (write_cases book side idx level s i) [
        | inr (_, e) ↦ inl (subst (λ (y : PriceLevel). Linked x y.queue) e l)
        | inl (es, ei, e) ↦
            elim (Linked-snoc x p (book.levels side idx).queue
              (subst (Linked x) behind (subst (λ (y : PriceLevel). Linked x y.queue) e l))) [
                | inl m ↦
                    inl (subst (λ (y : PriceLevel). Linked x y.queue) (same_level s i es ei) m)
                | inr same ↦ inr same
              ]
      ] in
    record {
      orders_ok = record {
        levels_ok = λ s i. elim (write_cases book side idx level s i) [
          | inl (_, _, e) ↦ subst (LevelOk slots) (sym e) good
          | inr (_, e) ↦ subst (LevelOk slots) (sym e) (h.levels_ok s i)
        ];
        placed = λ s i x l. elim (write_cases book side idx level s i) [
          | inr (_, e) ↦ h.placed s i x (subst (λ (y : PriceLevel). Linked x y.queue) e l)
          | inl (es, ei, e) ↦ elim (new_only s i x l) [
            | inl m ↦ h.placed s i x m
            | inr same ↦ (
              ap (λ y. (slots y).side) same ∙ sym es,
              ap (λ y. price_to_index book (slots y).price) same ∙ at ∙ ap some (sym ei),
            )
          ]
        ];
      };
      new_only = new_only;
      stands = (
        idx,
        (
          at,
          subst (λ (y : PriceLevel). Linked p y.queue) (sym (level_written book side idx level))
              (subst (Linked p) (sym behind) (Linked-last p (book.levels side idx).queue)),
        ),
      );
    }
  where
    same_level :
        (s : Side) (i : ℕ)
        → s ≡ (slots p).side
        → i ≡ idx
        → book.levels (slots p).side idx ≡ book.levels s i
    same_level s i es ei = ap (λ y. book.levels y idx) (sym es) ∙ ap (book.levels s) (sym ei)

pushed_behind :
    (slots : Slots) (level : PriceLevel) (p : ℕ)
    → is_ok (level_push_back slots level p).0 ≡ true
    → (level_push_back slots level p).1.queue ≡ level.queue ++ (p ∷ [])
unfolding level_push_back
pushed_behind slots level p accepted = elim (Bool-cases (order_remaining_qty (slots p) == 0)) [
  | inl e ↦ absurd (refused (rw (e) at accepted))
  | inr e ↦ elim (Bool-cases (ltb (int32_max - level.total_qty) (order_remaining_qty (slots p)))) [
    | inl f ↦ absurd (refused (rw (e, f) at accepted))
    | inr f ↦ rw (e, f) refl
  ]
]
  where
    refused : ◌≢◌ {A = Bool} false true
    refused e = cc e

-- Behind an insertion: it failed and the book is as before, or the order stands in it.
pub book_insert_cases :
    (slots : Slots) (book : OrderBook) (p : ℕ)
    → Grid book
    → Placed slots book
    → Unlinked p book
    → ((is_ok (book_insert slots book p).0 ≡ false) × ((book_insert slots book p).1 ≡ book))
      ⊎ ((is_ok (book_insert slots book p).0 ≡ true)
          × Inserted slots book (book_insert slots book p).1 p)
unfolding book_insert
book_insert_cases slots book p g h unlinked =
    let o = slots p in
    elim (Bool-cases (ltb o.price book.low || ltb book.high o.price)) [
      | inl e ↦ inl (rw (e) refl, rw (e) refl)
      | inr e ↦ elim (Option-cases (price_to_index book o.price)) [
        | inl f ↦ inl (rw (e, f) refl, rw (e, f) refl)
        | inr (idx, f) ↦
            let level = book.levels o.side idx in
            let pushed = (level_push_back slots level p).1 in
            let good =
              level_push_back-LevelOk slots level p (h.levels_ok o.side idx)
                (unlinked o.side idx) in
            elim (Bool-cases (is_ok (level_push_back slots level p).0)) [
              | inr refused ↦ inl (rw (e, f, refused) refused, rw (e, f, refused) refl)
              | inl accepted ↦
                  let there =
                    set_level-Inserted slots book idx p pushed h f good
                      (pushed_behind slots level p accepted) in
                  inr (
                    rw (e, f, accepted) refl,
                    rw (e, f, accepted)
                        (with_best
                          (book.best o.side == book_price_none
                            || improves o.side o.price (book.best o.side))
                          (set_level book o.side idx pushed) there),
                  )
            ]
      ]
    ]
  where
    with_best :
        (b : Bool) (book' : OrderBook)
        → Inserted slots book book' p
        → Inserted slots book (if b then set_best book' (slots p).side (slots p).price else book') p
    with_best true book' i = set_best-Inserted slots book book' p (slots p).side (slots p).price i
    with_best false book' i = i
