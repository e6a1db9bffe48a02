-- ===== src/Book/Depth.antt =====
-- `book_qty_up_to` (exchange/src/book/order_book.c) against the sum of all levels within the bound.
use trading_sor_mock.Base.{
  ℕ, zero, suc, ◌+◌, ◌-◌, ◌^◌, ◌≤◌, ◌<◌, min, ◌≡◌, refl, ap, ◌∙◌, inl, inr, true, false, arith, leb,
  ◌==◌, if◌then◌else◌, le→leb, lt→leb_false, ==_false, Bool-cases, compare_cases,
}
use trading_sor_mock.Base.Int.{
  ℤ, pos, negsuc, ◌+ℤ◌, ◌≤ℤ◌, int_laws, leb_ℤ, wrap, int32, int32-id, int32-le,
}
use trading_sor_mock.Types.{Side, buy, sell}
use trading_sor_mock.Book.Prices.{OrderBook, index_to_price}
use trading_sor_mock.Book.Grid.{Grid}
use trading_sor_mock.Book.{scan_index, within, qty_from, book_qty_up_to}

-- The quantity that a level adds: its total if it has orders and its price is within the bound.
abbrev pub level_within : OrderBook → Side → (bound i : ℕ) → ℕ
level_within book side bound i =
    if (book.levels side i).order_count == 0
    then 0
    else if within side bound (index_to_price book i)
    then (book.levels side i).total_qty
    else 0

-- The quantities of the last `r` levels of a scan that are within the bound.
abbrev pub total_within : OrderBook → Side → (bound r : ℕ) → ℕ
total_within book side bound zero = 0
total_within book side bound (suc r) =
    level_within book side bound (scan_index side book.level_count r)
    + total_within book side bound r

-- Behind a price that is out of the bound, each price is.
within_mono :
    (side : Side) (bound n k r : ℕ) (price : ℕ → ℕ)
    → ((i j : ℕ) → i < j → j < n → price i < price j)
    → k < r
    → r < n
    → within side bound (price (scan_index side n r)) ≡ false
    → within side bound (price (scan_index side n k)) ≡ false
unfolding within scan_index
within_mono buy bound n k r price mono kr rn h = ground (arith, mono k r kr rn)
within_mono sell bound n k r price mono kr rn h =
    ground (arith, mono (n - suc r) (n - suc k) (omega arith) (omega arith))

none_within :
    (book : OrderBook) (side : Side) (bound r k : ℕ)
    → Grid book
    → r < book.level_count
    → k ≤ r
    → within side bound (index_to_price book (scan_index side book.level_count r)) ≡ false
    → total_within book side bound k ≡ 0
none_within book side bound r zero g rn kr h = refl
none_within book side bound r (suc k) g rn kr h =
    let out = within_mono side bound book.level_count k r (index_to_price book) g.mono kr rn h in
    let rest = none_within book side bound r k g rn (omega arith) h in
    elim (Bool-cases ((book.levels side (scan_index side book.level_count k)).order_count == 0)) [
      | inl e ↦ rw e (omega (arith, rest))
      | inr e ↦ rw (e, out) (omega (arith, rest))
    ]

leb_pos : (a b : ℕ) → leb_ℤ (pos a) (pos b) ≡ leb a b
leb_pos a b = ground arith

add_fits : (s t : ℕ) → s + t ≤ (2 ^ 31 - 1) → int32 (pos s +ℤ pos t) ≡ pos (s + t)
add_fits s t h = int32-id (pos s +ℤ pos t) (omega int_laws) (omega int_laws) ∙ sum
  where
    sum : pos s +ℤ pos t ≡ pos (s + t)
    sum = omega int_laws

-- Every level leaves room in an int32 for the wanted quantity.
abbrev pub Roomy : OrderBook → Side → ℕ → Type 0
Roomy book side want = (i : ℕ) → (book.levels side i).total_qty + want ≤ (2 ^ 31 - 1)

qty_from_lem :
    (book : OrderBook) (side : Side) (bound want r sum : ℕ)
    → Grid book
    → Roomy book side want
    → r ≤ book.level_count
    → sum < want
    → qty_from book side bound want r (pos sum)
      ≡ pos (min want (sum + total_within book side bound r))
unfolding qty_from
qty_from_lem book side bound want zero sum g room rn lt = ap pos (ground arith)
qty_from_lem book side bound want (suc r) sum g room rn lt =
    let i = scan_index side book.level_count r in
    let level = book.levels side i in
    let added = add_fits sum level.total_qty (omega (arith, room i)) in
    elim (Bool-cases (level.order_count == 0)) [
      | inl e ↦
          rw (e, qty_from)
            (qty_from_lem book side bound want r sum g room (omega arith) lt ∙ ap pos (omega arith))
      | inr e ↦ elim (Bool-cases (within side bound (index_to_price book i))) [
        | inr f ↦
            rw (e, f, none_within book side bound r r g rn (omega arith) f, qty_from)
              (ap pos (omega arith))
        | inl f ↦ elim (compare_cases (sum + level.total_qty) want) [
          | inl h ↦
              rw (e, f, added, leb_pos, lt→leb_false want (sum + level.total_qty) h, qty_from)
                (qty_from_lem book side bound want r (sum + level.total_qty) g room (omega arith) h
                  ∙ ap pos (omega arith))
          | inr h ↦
              rw (e, f, added, leb_pos, le→leb want (sum + level.total_qty) h, qty_from)
                (ap pos (omega (arith, h)))
        ]
      ]
    ]

-- If no level's total comes within the wanted quantity of the largest int32: the quantity that can
-- be filled at once within a price bound is the sum of all levels of the side that are within the
-- bound, or the wanted quantity if that is less. The scan that stops at the first price out of the
-- bound, or as soon as enough is found, misses nothing.
pub book_qty_up_to_lem :
    (book : OrderBook) (side : Side) (bound want : ℕ)
    → Grid book
    → Roomy book side want
    → book_qty_up_to book side bound want
      ≡ pos (min want (total_within book side bound book.level_count))
unfolding book_qty_up_to
book_qty_up_to_lem book side bound want g room = elim (compare_cases 0 want) [
  | inl h ↦
      rw (==_false want 0 (λ e. omega (arith, h, e)), book_qty_up_to)
        (qty_from_lem book side bound want book.level_count 0 g room (omega arith) h
          ∙ ap pos (omega arith))
  | inr h ↦ ground (arith, h)
]

int32-low : (x : ℤ) → negsuc (2 ^ 31 - 1) ≤ℤ int32 x
unfolding wrap
int32-low x = ground arith

-- A round of the scan adds no more than the level has, even if the sum passes an int32.
added_le :
    (sum : ℤ) (t : ℕ)
    → negsuc (2 ^ 31 - 1) ≤ℤ sum
    → (negsuc (2 ^ 31 - 1) ≤ℤ int32 (sum +ℤ pos t)) × (int32 (sum +ℤ pos t) ≤ℤ sum +ℤ pos t)
added_le sum t lo = (int32-low (sum +ℤ pos t), int32-le (sum +ℤ pos t) (omega int_laws))

reached : (a b : ℤ) → leb_ℤ a b ≡ true → a ≤ℤ b
reached a b h = ground (arith, h)

not_reached : (a b : ℤ) → leb_ℤ a b ≡ false → b ≤ℤ a
not_reached a b h = ground (arith, h)

qty_from_le :
    (book : OrderBook) (side : Side) (bound want r : ℕ) (sum : ℤ)
    → negsuc (2 ^ 31 - 1) ≤ℤ sum
    → sum ≤ℤ pos want
    → (qty_from book side bound want r sum ≤ℤ pos want)
      × (qty_from book side bound want r sum ≤ℤ sum +ℤ pos (total_within book side bound r))
unfolding qty_from
qty_from_le book side bound want zero sum lo hi = (hi, omega int_laws)
qty_from_le book side bound want (suc r) sum lo hi =
    let i = scan_index side book.level_count r in
    let level = book.levels side i in
    let (new_lo, new_le) = added_le sum level.total_qty lo in
    elim (Bool-cases (level.order_count == 0)) [
      | inl e ↦
          let (a, b) = qty_from_le book side bound want r sum lo hi in
          rw (e, qty_from) (a, omega (int_laws, b))
      | inr e ↦ elim (Bool-cases (within side bound (index_to_price book i))) [
        | inr f ↦ rw (e, f, qty_from) (hi, omega int_laws)
        | inl f ↦ elim (Bool-cases (leb_ℤ (pos want) (int32 (sum +ℤ pos level.total_qty)))) [
          | inl h ↦
              rw (e, f, h, qty_from)
                (
                  omega arith,
                  omega
                      (int_laws, new_le, reached (pos want) (int32 (sum +ℤ pos level.total_qty)) h),
                )
          | inr h ↦
              let (a, b) =
                qty_from_le book side bound want r (int32 (sum +ℤ pos level.total_qty)) new_lo
                  (not_reached (pos want) (int32 (sum +ℤ pos level.total_qty)) h) in
              rw (e, f, h, qty_from) (a, omega (int_laws, b, new_le))
        ]
      ]
    ]

-- The count never says more than there is: at most the wanted quantity, and at most the sum of all
-- levels that are within the bound; also where the sum passes an int32.
pub book_qty_up_to-le :
    (book : OrderBook) (side : Side) (bound want : ℕ)
    → book_qty_up_to book side bound want
      ≤ℤ pos (min want (total_within book side bound book.level_count))
unfolding book_qty_up_to
book_qty_up_to-le book side bound want = elim (compare_cases 0 want) [
  | inl h ↦
      let (a, b) =
        qty_from_le book side bound want book.level_count (pos 0) (omega arith) (omega arith) in
      rw (==_false want 0 (λ e. omega (arith, h, e)), book_qty_up_to) (omega (int_laws, a, b))
  | inr h ↦ ground (arith, h)
]
