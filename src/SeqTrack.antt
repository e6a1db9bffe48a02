-- ===== src/SeqTrack.antt =====
-- fep/src/seqtrack.c: the sender's ring of the last messages, for resending, and the receiver's
-- detection of gaps. Sequence numbers are natural numbers; pointers are not NULL.
pub mod Delivery
pub mod Ring
pub mod Tests
use trading_sor_mock.Base.{
  ℕ, ◌+◌, ◌-◌, ◌%◌, Bool, true, false, ◌&&◌, ◌||◌, not, List, [], ltb, leb, ◌==◌, if◌then◌else◌,
  length,
}
use trading_sor_mock.Types.{ErrorCode, ok, invalid_arg, not_found, Result, done, fail}

abbrev pub seqstore_frame_max : ℕ
seqstore_frame_max = 128

abbrev pub seqstore_keep : ℕ
seqstore_keep = 256

-- `seqslot_t`; `len` is the length of the frame.
pub record SeqSlot : Type 0 where
  pub seq : ℕ
  pub frame : List ℕ

-- `seqstore_t`
pub record SeqStore : Type 0 where
  pub slot : ℕ → SeqSlot
  pub oldest : ℕ
  pub newest : ℕ
  pub count : ℕ

unfoldable pub seqstore_init : SeqStore
seqstore_init = record {
  slot = λ _. record { seq = 0; frame = [] };
  oldest = 0;
  newest = 0;
  count = 0;
}

unfoldable pub ring_place : ℕ → ℕ
ring_place seq = seq % seqstore_keep

unfoldable pub seqstore_put : SeqStore → ℕ → List ℕ → ErrorCode × SeqStore
seqstore_put st seq frame =
    let count = if ltb st.count seqstore_keep then st.count + 1 else st.count in
    if seq == 0 || length frame == 0 || ltb seqstore_frame_max (length frame)
    then (invalid_arg, st)
    else if ltb 0 st.count && leb seq st.newest
    then (invalid_arg, st)
    else (
      ok,
      record {
        slot = λ i. if i == ring_place seq then record { seq = seq; frame = frame } else st.slot i;
        oldest = seq - count + 1;
        newest = seq;
        count = count;
      },
    )

-- `seqstore_get`: the frame that it copies out, or its error.
unfoldable pub seqstore_get : SeqStore → (seq cap : ℕ) → Result (List ℕ)
seqstore_get st seq cap =
    let s = st.slot (ring_place seq) in
    if not (s.seq == seq) || length s.frame == 0
    then fail not_found
    else if ltb cap (length s.frame)
    then fail invalid_arg
    else done s.frame

unfoldable pub seqstore_oldest : SeqStore → ℕ
seqstore_oldest st = if ltb 0 st.count then st.oldest else 0

-- `seq_verdict_t`
pub data SeqVerdict : Type 0 where
  seq_ok seq_dup seq_gap seq_wait : SeqVerdict

-- `seqtrack_t`
pub record SeqTracker : Type 0 where
  pub expected : ℕ
  pub recovering : Bool
  pub gap_from : ℕ
  pub gaps : ℕ
  pub dups : ℕ

unfoldable pub seqtrack_init : ℕ → SeqTracker
seqtrack_init first = record {
  expected = if ltb 0 first then first else 1;
  recovering = false;
  gap_from = 0;
  gaps = 0;
  dups = 0;
}

unfoldable pub seqtrack_on : SeqTracker → ℕ → SeqVerdict × SeqTracker
seqtrack_on tr seq =
    if seq == tr.expected
    then (seq_ok, record tr { expected = tr.expected + 1; recovering = false })
    else if ltb seq tr.expected
    then (seq_dup, record tr { dups = tr.dups + 1 })
    else if tr.recovering
    then (seq_wait, tr)
    else (seq_gap, record tr { recovering = true; gap_from = tr.expected; gaps = tr.gaps + 1 })

unfoldable pub seqtrack_skip_to : SeqTracker → ℕ → ErrorCode × SeqTracker
seqtrack_skip_to tr next_seq =
    if leb next_seq tr.expected
    then (invalid_arg, tr)
    else (ok, record tr { expected = next_seq; recovering = false })

unfoldable pub seqtrack_restart_at : SeqTracker → ℕ → Bool × SeqTracker
seqtrack_restart_at tr next_seq =
    if next_seq == 0 || leb tr.expected next_seq
    then (false, tr)
    else (true, record tr { expected = next_seq; recovering = false })
