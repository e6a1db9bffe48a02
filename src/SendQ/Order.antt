-- ===== src/SendQ/Order.antt =====
-- What leaves a send queue is what was put in, in that order (fep/src/sendq.c).
use trading_sor_mock.Base.{ℕ, ◌+◌, ◌≤◌, ◌≡◌, List, [], ◌∷◌, ◌++◌, if◌then◌else◌, length, take, drop}
use trading_sor_mock.Types.{ErrorCode, io_error, is_ok, Result, done, fail}
use trading_sor_mock.Wire.{Bytes}
use trading_sor_mock.SendQ.{
  sendq_cap, SendQ, sendq_push, Written, wrote, would_block, write_failed, sendq_flush,
}

-- A call of the queue: a frame to send, or a flush with what `write` does at that moment.
pub data SendCall : Type 0 where
  push : Bytes → SendCall
  flush : (Bytes → Written) → SendCall

-- `write` takes at most the bytes that it is given.
abbrev pub TakesAtMost : ℕ → Written → Type 0
TakesAtMost n (wrote w) = w ≤ n
TakesAtMost n would_block = Unit
TakesAtMost n write_failed = Unit

abbrev pub IsWrite : SendCall → Type 0
IsWrite (push _) = Unit
IsWrite (flush write) = (bytes : Bytes) → TakesAtMost (length bytes) (write bytes)

abbrev pub after_call : SendQ → SendCall → SendQ
after_call q (push frame) = (sendq_push q frame).1
after_call q (flush write) = (sendq_flush write q).1

-- The bytes that a call puts in, which are those of a frame that is accepted.
abbrev pub put_in : SendQ → SendCall → Bytes
put_in q (push frame) = if is_ok (sendq_push q frame).0 then frame else []
put_in q (flush write) = []

abbrev pub unsent : SendQ → Bytes
unsent q = drop q.off q.buf

-- The bytes that a call gives to the connection: as many of the unsent ones as the flush reports.
abbrev pub handed : Bytes → Result ℕ → Bytes
handed bytes (done n) = take n bytes
handed bytes (fail _) = []

abbrev pub sent : SendQ → SendCall → Bytes
sent q (push _) = []
sent q (flush write) = handed (unsent q) (sendq_flush write q).0

abbrev pub run_calls : SendQ → List SendCall → SendQ
run_calls q [] = q
run_calls q (c ∷ cs) = run_calls (after_call q c) cs

abbrev pub all_put_in : SendQ → List SendCall → Bytes
all_put_in q [] = []
all_put_in q (c ∷ cs) = put_in q c ++ all_put_in (after_call q c) cs

abbrev pub all_sent : SendQ → List SendCall → Bytes
all_sent q [] = []
all_sent q (c ∷ cs) = sent q c ++ all_sent (after_call q c) cs

pub record SendQOk (q : SendQ) : Type 0 where
  pub inside : q.off ≤ length q.buf
  pub small : length q.buf ≤ sendq_cap

-- An answer of a push keeps the order of the bytes, and one of a flush does.
abbrev PushKeeps : SendQ → Bytes → ErrorCode × SendQ → Type 0
PushKeeps q frame r = (unsent r.1 ≡ unsent q ++ (if is_ok r.0 then frame else [])) × SendQOk r.1

abbrev FlushKeeps : SendQ → Result ℕ × SendQ → Type 0
FlushKeeps q r = (handed (unsent q) r.0 ++ unsent r.1 ≡ unsent q) × SendQOk r.1

-- What a flush makes of the answer of `write`.
abbrev flush_answer : SendQ → Written → Result ℕ × SendQ
flush_answer q would_block = (done 0, q)
flush_answer q write_failed = (fail io_error, q)
flush_answer q (wrote w) = (done w, record q { off = q.off + w })
