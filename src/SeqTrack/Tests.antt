-- ===== src/SeqTrack/Tests.antt =====
-- Runs of the sequence numbers, and the theorems at concrete messages.
use trading_sor_mock.Base.{
  ℕ, ◌+◌, ◌≡◌, refl, List, [], ◌∷◌, arith, ltb, ◌==◌, if◌then◌else◌, length,
}
use trading_sor_mock.Types.{ok, invalid_arg, not_found, done, fail}
use trading_sor_mock.SeqTrack.{
  seqstore_init, ring_place, seqstore_put, seqstore_get, seqstore_oldest, seqtrack_init,
  seqtrack_on,
}
use trading_sor_mock.SeqTrack.Delivery.{run_arrivals, delivered, consecutive, delivered-consecutive}
use trading_sor_mock.SeqTrack.Ring.{
  seqstore_put-seqstore_get, store_run, Fits, kept, read_frame, seqstore_get-store_run,
}

-- 1, then a gap, a repeat and the missing message: 1, 2 and 3 are passed on.
abbrev arrivals : List ℕ
arrivals = 1 ∷ 3 ∷ 1 ∷ 4 ∷ 2 ∷ 3 ∷ []

delivered_run : delivered (seqtrack_init 1) arrivals ≡ 1 ∷ 2 ∷ 3 ∷ []
unfolding seqtrack_init seqtrack_on
delivered_run = refl

delivered-consecutive_example :
    (n : ℕ) × (delivered (seqtrack_init 1) arrivals ≡ consecutive (seqtrack_init 1).expected n)
    × ((run_arrivals (seqtrack_init 1) arrivals).expected ≡ (seqtrack_init 1).expected + n)
delivered-consecutive_example = delivered-consecutive (seqtrack_init 1) arrivals

abbrev message : List ℕ
message = 70 ∷ 69 ∷ 80 ∷ []

first_accepted : (seqstore_put seqstore_init 1 message).0 ≡ ok
unfolding seqstore_init seqstore_put
first_accepted = refl

seqstore_put-seqstore_get_example : seqstore_get (seqstore_put seqstore_init 1 message).1 1 128 ≡ (
    if 1 == 1
    then if ltb 128 (length message) then fail invalid_arg else done message
    else if ring_place 1 == ring_place 1
    then fail not_found
    else seqstore_get seqstore_init 1 128)
seqstore_put-seqstore_get_example =
    seqstore_put-seqstore_get seqstore_init 1 message 1 128 first_accepted

message-Fits : Fits message
message-Fits = (omega arith, omega arith)

seqstore_get-store_run_example :
    ((q cap : ℕ)
      → seqstore_get (store_run 7 (λ _. message) 300) q cap
        ≡ (if kept 7 300 q then read_frame cap message else fail not_found))
    × ((store_run 7 (λ _. message) 300).count ≡ 256)
    × (seqstore_oldest (store_run 7 (λ _. message) 300) ≡ 51)
seqstore_get-store_run_example =
    seqstore_get-store_run 7 (λ _. message) 300 (omega arith) (λ _. message-Fits)

-- A message whose number skips some: the ring then names a message as its oldest that it does not
-- hold.
skipped_oldest :
    let st = (seqstore_put (seqstore_put seqstore_init 1 message).1 10 message).1 in
    (seqstore_oldest st ≡ 9) × (seqstore_get st 9 128 ≡ fail not_found)
unfolding seqstore_init seqstore_put seqstore_oldest seqstore_get ring_place
skipped_oldest = (refl, refl)
