-- ===== src/Lib.antt =====
-- Verification of mini-sor, a simulator of order execution on two markets (KRX and NXT).
--
-- A client's order passes from the channel to the ledger, which checks it and reserves its margin
-- on the account; the order router plans its legs; the front end processor carries messages to the
-- markets over numbered sessions; and each market matches orders in a book per symbol. Modelled here
-- are the accounts and the margin of the ledger, the exchange with everything it stands on, the
-- messages and their bytes, the framing, the send queue and the sequence numbers of the front end
-- processor, and the router's split of an order with the map of its legs.
--
-- Files and what they model:
--
--   Types       core/include/types.h, order.h, errors.h: enumerations, limits, `order_t`
--   Tick        core/src/tick_size.c: the tick tables, rounding, segments of equal tick
--   Account     ledger/src/account.c: `acct_lock` with its roll-back, deposits, margins and holdings
--   Level       exchange/src/book/price_level.c: the queue of one price
--   Book        exchange/src/book/order_book.c: prices and indices, best prices, insert and remove
--   Rules       exchange/include/market_rules.h, exchange/src/rules: sessions and order types
--   Index       core/src/order_index.c: the hash table from order ids to slots
--   Pool        core/src/order_pool.c: the slots of the orders and their free list
--   Engine      exchange/src/match: the sweep, the kinds of orders, cancel and modify
--   SeqTrack    fep/src/seqtrack.c: resending and the detection of gaps
--   Wire        core/src/wire.c: integers, strings and the header of a message as bytes
--   Framer      fep/src/framer.c: cutting a byte stream into messages
--   SendQ       fep/src/sendq.c: the bytes that wait to be sent
--   Msg         core/src/msg.c: every message body, its encoder and decoder
--   OrderMap    sor/src/order_map.c: the legs that were sent of each order, and the reports on them
--   Margin      ledger/src/order_validate.c: `margin_for`
--   Plan        sor/src/strategy.c, strategy_split.c: plans, and the split over the two markets
--   Base        names and lemmas that the others share
--
-- The functions keep the names of the code. State is passed explicitly: an operation takes the
-- records that the code reaches through its pointers and returns them changed. A pointer to an order
-- is the number of its slot in the pool, so that a change of an order is a change of the pool's slots
-- that the book and the engine see as well. The doubly linked list of a price level is the list of the
-- slots it links; the writes to `next`, `prev`, `head` and `tail` themselves are in Level/Links. Arrays are functions of the index. Pointer arguments are not NULL, and memory
-- suffices where the code allocates. The robust mutex of an account is the operating system's: an
-- operation takes the answer of locking it, and a crash is a prefix of an operation's stores.
--
-- Prices, quantities and ids are natural numbers, which the code keeps positive in int32. Sums of
-- quantities: `level_push_back` tests its sum before it adds; `book_qty_up_to` and the reports and sums
-- of the order map do not, and are modelled in int32, those of amounts in int64, with the wrap-around of
-- two's complement (`wrap` in Base/Int; in C such an overflow is undefined, so this is what the usual
-- compilers give). So is the arithmetic of a holding (`new_position`). Balances and times are integers
-- without a bound. The split of an order over two markets says nothing where a count has overflowed. The
-- hash of an order id keeps its wrap-around modulo 2 ^ 64.
--
-- A byte is a number below 256, and a buffer the list of its bytes. What `write` takes is a parameter
-- of `sendq_flush`.
--
-- Loops: `match_sweep` runs on the order's quantity as fuel, since each round fills at least one;
-- `build_segments` on the eight segments that the code has room for; the scans of the
-- book on the number of levels; the probes of the index on the size of the table.
--
-- Not modelled: the rest of the order router and of the ledger, the sessions, the journal and the
-- snapshots. Left out: sockets, processes, shared memory and files, the feeds, the
-- benchmarks, and the parts in other languages (channel, web).
pub mod Base
pub mod Types
pub mod Tick
pub mod Account
pub mod Level
pub mod Book
pub mod Rules
pub mod Index
pub mod Pool
pub mod Engine
pub mod SeqTrack
pub mod Margin
pub mod Plan
pub mod Wire
pub mod Framer
pub mod SendQ
pub mod Msg
pub mod OrderMap
