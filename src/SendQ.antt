-- ===== src/SendQ.antt =====
-- fep/src/sendq.c: the bytes of a connection that wait to be sent. A pointer is not NULL and a
-- descriptor is not negative; the bytes of the buffer are the list of those below `len`.
pub mod Order
pub mod Tests
use trading_sor_mock.Base.{
  ℕ, ◌+◌, ◌-◌, Bool, ◌&&◌, ◌||◌, [], ◌++◌, ltb, ◌==◌, if◌then◌else◌, length, drop,
}
use trading_sor_mock.Types.{
  ErrorCode, ok, invalid_arg, pool_exhausted, io_error, Result, done, fail,
}
use trading_sor_mock.Wire.{Bytes}

abbrev pub sendq_cap : ℕ
sendq_cap = 262144

-- `sendq_t`
pub record SendQ : Type 0 where
  pub buf : Bytes
  pub off : ℕ

unfoldable pub sendq_init : SendQ
sendq_init = record { buf = []; off = 0 }

unfoldable pub sendq_pending : SendQ → ℕ
sendq_pending q = length q.buf - q.off

unfoldable pub sendq_want_write : SendQ → Bool
sendq_want_write q = ltb 0 (sendq_pending q)

-- The `memmove` of `sendq_push`, where the bytes do not fit behind.
unfoldable pub move_front : SendQ → (n : ℕ) → SendQ
move_front q n =
    if ltb sendq_cap (length q.buf + n) && ltb 0 q.off
    then record { buf = drop q.off q.buf; off = 0 }
    else q

unfoldable pub sendq_push : SendQ → Bytes → ErrorCode × SendQ
sendq_push q frame =
    let n = length frame in
    let q' = move_front q n in
    if n == 0 || ltb sendq_cap n
    then (invalid_arg, q)
    else if ltb sendq_cap (length q'.buf + n)
    then (pool_exhausted, q')
    else (ok, record q' { buf = q'.buf ++ frame })

-- What `write` answers for some bytes: the number of the first ones that it took, that it would
-- block (EAGAIN, EWOULDBLOCK, EINTR), or another error.
pub data Written : Type 0 where
  wrote : ℕ → Written
  would_block : Written
  write_failed : Written

-- `sendq_flush` with the system's `write`.
unfoldable pub sendq_flush : (write : Bytes → Written) → SendQ → Result ℕ × SendQ
sendq_flush write q =
    if length q.buf - q.off == 0 then (done 0, q) else elim (write (drop q.off q.buf)) [
      | would_block ↦ (done 0, q)
      | write_failed ↦ (fail io_error, q)
      | wrote w ↦ (done w, record q { off = q.off + w })
    ]
