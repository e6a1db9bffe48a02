-- ===== src/OrderMap/Balance.antt =====
-- The legs of every order of the map add up (sor/src/order_map.c).
use trading_sor_mock.Base.{
  ℕ, zero, suc, ◌+◌, ◌*◌, ◌≤◌, ◌<◌, ◌≡◌, refl, sym, ap, ◌∙◌, ◌≢◌, inl, inr, Bool, true, false, ◌||◌,
  Option, none, some, List, [], ◌∷◌, arith, ◌==◌, Bool-cases, Option-cases, get_elem?, set, All,
  All-set, All-get_elem?,
}
use trading_sor_mock.Base.Int.{
  ℤ, pos, pos_part, neg_part, ◌+ℤ◌, ◌≤ℤ◌, ltb_ℤ, int_laws, eqb_ℤ, int32, int64, int32-id,
}
use trading_sor_mock.Types.{
  Market, ErrorCode, invalid_qty, duplicate, qty_max, is_ok, Result, done, fail,
}
use trading_sor_mock.Plan.{PlanLeg, market_eq, check_legs}
use trading_sor_mock.OrderMap.{PhysLeg, LogicalOrder, OrderMap, legs_of, set_order}
use trading_sor_mock.OrderMap.Legs.{
  find_leg, leg_at, set_leg, used_qty, close_leg, on_leg, accept_leg, fill_leg, cancel_leg,
}

-- A leg of at most QTY_MAX on which no more is filled and canceled than was sent, and which is live
-- while something is open.
pub record LegOk (leg : PhysLeg) : Type 0 where
  pub small : leg.sent_qty ≤ qty_max
  pub filled_nonneg : pos 0 ≤ℤ leg.filled_qty
  pub canceled_nonneg : pos 0 ≤ℤ leg.canceled_qty
  pub bounded : leg.filled_qty +ℤ leg.canceled_qty ≤ℤ pos leg.sent_qty
  pub live_ok : leg.live ≡ ltb_ℤ (leg.filled_qty +ℤ leg.canceled_qty) (pos leg.sent_qty)

abbrev pub legs_sent : List PhysLeg → ℕ
legs_sent [] = 0
legs_sent (leg ∷ legs) = leg.sent_qty + legs_sent legs

-- An order whose legs make up its quantity.
pub record OrderBalanced (lo : LogicalOrder) : Type 0 where
  pub legs_ok : All LegOk lo.legs
  pub all_sent : legs_sent lo.legs ≡ lo.order_qty

-- Every order of the map is balanced; those that are not registered have neither legs nor quantity.
abbrev pub MapBalanced : OrderMap → Type 0
MapBalanced map = (k : ℕ) → OrderBalanced (map.orders k)

-- A report on a leg leaves it right and keeps what was sent.
abbrev pub KeepsLeg : (PhysLeg → ErrorCode × PhysLeg) → Type 0
KeepsLeg f = (leg : PhysLeg) → LegOk leg → LegOk (f leg).1 × ((f leg).1.sent_qty ≡ leg.sent_qty)

-- Sums of the quantities of such a leg, with one more quantity, fit into an int32.
sum_fits : (x : ℤ) → pos 0 ≤ℤ x → x ≤ℤ pos (2 * qty_max) → int32 x ≡ x
sum_fits x lo hi = int32-id x (omega arith) (omega arith)

record UsesQty (leg : PhysLeg) : Type 0 where
  used_small : leg.sent_qty ≤ qty_max
  used_filled : pos 0 ≤ℤ leg.filled_qty
  used_canceled : pos 0 ≤ℤ leg.canceled_qty
  used_bounded : leg.filled_qty +ℤ leg.canceled_qty ≤ℤ pos leg.sent_qty

used_lem : (leg : PhysLeg) → UsesQty leg → used_qty leg ≡ leg.filled_qty +ℤ leg.canceled_qty
used_lem leg u =
    sum_fits (leg.filled_qty +ℤ leg.canceled_qty) (omega (int_laws, u.used_filled, u.used_canceled))
      (omega (int_laws, u.used_bounded, u.used_small))

LegOk-UsesQty : (leg : PhysLeg) → LegOk leg → UsesQty leg
LegOk-UsesQty leg good = record {
  used_small = good.small;
  used_filled = good.filled_nonneg;
  used_canceled = good.canceled_nonneg;
  used_bounded = good.bounded;
}

not_open : (a b : ℤ) → eqb_ℤ a b ≡ true → ltb_ℤ a b ≡ false
not_open a b e = ground (arith, e)

still_open : (a b : ℤ) → a ≤ℤ b → eqb_ℤ a b ≡ false → ltb_ℤ a b ≡ true
still_open a b le e = ground (arith, e)

close_leg-LegOk :
    (leg : PhysLeg)
    → UsesQty leg
    → leg.live ≡ true
    → LegOk (close_leg leg) × ((close_leg leg).sent_qty ≡ leg.sent_qty)
close_leg-LegOk leg u alive =
    let used = leg.filled_qty +ℤ leg.canceled_qty in
    let same = used_lem leg u in
    elim (Bool-cases (eqb_ℤ used (pos leg.sent_qty))) [
      | inl e ↦
          rw (same, e)
            (
              record {
                small = u.used_small;
                filled_nonneg = u.used_filled;
                canceled_nonneg = u.used_canceled;
                bounded = u.used_bounded;
                live_ok = sym (not_open used (pos leg.sent_qty) e);
              },
              refl,
            )
      | inr e ↦
          rw (same, e)
            (
              record {
                small = u.used_small;
                filled_nonneg = u.used_filled;
                canceled_nonneg = u.used_canceled;
                bounded = u.used_bounded;
                live_ok = alive ∙ sym (still_open used (pos leg.sent_qty) u.used_bounded e);
              },
              refl,
            )
    ]

-- What the test of a report says of the leg: the quantity fits, and the leg is live.
record Fitting (leg : PhysLeg) (qty : ℕ) : Type 0 where
  fits : leg.filled_qty +ℤ leg.canceled_qty +ℤ pos qty ≤ℤ pos leg.sent_qty
  alive : leg.live ≡ true

no_room : (a b : ℤ) → ltb_ℤ a b ≡ false → b ≤ℤ a
no_room a b e = ground (arith, e)

less_than : (a b : ℤ) → pos_part a + neg_part b < pos_part b + neg_part a → ltb_ℤ a b ≡ true
less_than a b h = ground (arith, h)

room_for :
    (leg : PhysLeg) (qty : ℕ)
    → LegOk leg
    → 0 < qty
    → qty ≤ qty_max
    → ltb_ℤ (pos leg.sent_qty) (int32 (used_qty leg +ℤ pos qty)) ≡ false
    → Fitting leg qty
room_for leg qty good some_qty le e =
    let used = leg.filled_qty +ℤ leg.canceled_qty in
    let same : used_qty leg ≡ used = used_lem leg (LegOk-UsesQty leg good) in
    let whole : int32 (used +ℤ pos qty) ≡ used +ℤ pos qty =
      sum_fits (used +ℤ pos qty) (omega (int_laws, good.filled_nonneg, good.canceled_nonneg))
        (omega (int_laws, good.bounded, good.small, le)) in
    let fits = no_room (pos leg.sent_qty) (used +ℤ pos qty) (rw (same, whole) at e) in
    record {
      fits = fits;
      alive = good.live_ok ∙ less_than used (pos leg.sent_qty) (omega (int_laws, fits, some_qty));
    }

pub accept_leg-KeepsLeg : KeepsLeg accept_leg
accept_leg-KeepsLeg leg good = (
  record {
    small = good.small;
    filled_nonneg = good.filled_nonneg;
    canceled_nonneg = good.canceled_nonneg;
    bounded = good.bounded;
    live_ok = good.live_ok;
  },
  refl,
)

pub fill_leg-KeepsLeg : (qty price : ℕ) → 0 < qty → qty ≤ qty_max → KeepsLeg (fill_leg qty price)
fill_leg-KeepsLeg qty price some_qty le leg good =
    elim (Bool-cases (ltb_ℤ (pos leg.sent_qty) (int32 (used_qty leg +ℤ pos qty)))) [
      | inl over ↦ rw over (good, refl)
      | inr e ↦
          let room = room_for leg qty good some_qty le e in
          let kept : int32 (leg.filled_qty +ℤ pos qty) ≡ leg.filled_qty +ℤ pos qty =
            sum_fits (leg.filled_qty +ℤ pos qty) (omega (int_laws, good.filled_nonneg))
              (omega (int_laws, room.fits, good.small, good.canceled_nonneg)) in
          rw (e, kept)
            (close_leg-LegOk
              (record leg {
                filled_qty = leg.filled_qty +ℤ pos qty;
                notional = int64 (leg.notional +ℤ pos (price * qty));
              })
              record {
                used_small = good.small;
                used_filled = omega (int_laws, good.filled_nonneg);
                used_canceled = good.canceled_nonneg;
                used_bounded = omega (int_laws, room.fits);
              }
              room.alive)
    ]

pub cancel_leg-KeepsLeg : (qty : ℕ) → 0 < qty → qty ≤ qty_max → KeepsLeg (cancel_leg qty)
cancel_leg-KeepsLeg qty some_qty le leg good =
    elim (Bool-cases (ltb_ℤ (pos leg.sent_qty) (int32 (used_qty leg +ℤ pos qty)))) [
      | inl over ↦ rw over (good, refl)
      | inr e ↦
          let room = room_for leg qty good some_qty le e in
          let kept : int32 (leg.canceled_qty +ℤ pos qty) ≡ leg.canceled_qty +ℤ pos qty =
            sum_fits (leg.canceled_qty +ℤ pos qty) (omega (int_laws, good.canceled_nonneg))
              (omega (int_laws, room.fits, good.small, good.filled_nonneg)) in
          rw (e, kept)
            (close_leg-LegOk (record leg { canceled_qty = leg.canceled_qty +ℤ pos qty })
              record {
                used_small = good.small;
                used_filled = good.filled_nonneg;
                used_canceled = omega (int_laws, good.canceled_nonneg);
                used_bounded = omega (int_laws, room.fits);
              }
              room.alive)
    ]

legs_sent-set :
    (legs : List PhysLeg) (i : ℕ) (old leg : PhysLeg)
    → get_elem? legs i ≡ some old
    → leg.sent_qty ≡ old.sent_qty
    → legs_sent (set legs i leg) ≡ legs_sent legs
legs_sent-set [] i old leg e same = refl
legs_sent-set (x ∷ legs) zero old leg e same =
    ap (λ n. n + legs_sent legs)
      (same ∙ ap (λ (o : Option PhysLeg). elim o [ none ↦ 0 | some l ↦ l.sent_qty ]) (sym e))
legs_sent-set (x ∷ legs) (suc i) old leg e same =
    ap (λ n. x.sent_qty + n) (legs_sent-set legs i old leg e same)

pub on_leg-MapBalanced :
    (map : OrderMap) (phys_id : ℕ) (f : PhysLeg → ErrorCode × PhysLeg)
    → KeepsLeg f
    → MapBalanced map
    → MapBalanced (on_leg map phys_id f).1
unfolding set_leg set_order
on_leg-MapBalanced map phys_id f keeps h k = elim (Option-cases (find_leg map phys_id)) [
  | inl e ↦ rw (e, on_leg) (h k)
  | inr (at, e) ↦ elim (Option-cases (leg_at map at)) [
    | inl no_leg ↦ rw (e, no_leg, on_leg) (h k)
    | inr (leg, g) ↦
        let lo = map.orders at.0 in
        let (good, sent) = keeps leg (All-get_elem? LegOk lo.legs at.1 (h at.0).legs_ok g) in
        let written : OrderBalanced (record lo { legs = set lo.legs at.1 (f leg).1 }) = record {
          legs_ok = All-set LegOk lo.legs at.1 (f leg).1 (h at.0).legs_ok good;
          all_sent = legs_sent-set lo.legs at.1 leg (f leg).1 g sent ∙ (h at.0).all_sent;
        } in
        elim (Bool-cases (k == at.0)) [
          | inl i ↦ rw (e, g, i, on_leg) written
          | inr i ↦ rw (e, g, i, on_leg) (h k)
        ]
  ]
]

unfoldable pub plan_qty : List PlanLeg → ℕ
plan_qty [] = 0
plan_qty (leg ∷ legs) = leg.qty + plan_qty legs

-- What the check of the legs has established.
pub check_legs_lem :
    (legs : List PlanLeg) (seen : Market → Bool) (sum total : ℕ)
    → check_legs legs seen sum ≡ done total
    → (total ≡ sum + plan_qty legs) × All (λ (leg : PlanLeg). 0 < leg.qty) legs
unfolding check_legs plan_qty
check_legs_lem [] seen sum total e = (omega (arith, total_of e), tt)
  where
    total_of : done sum ≡ done total → total ≡ sum
    total_of e = ap (λ (r : Result ℕ). elim r [ done n ↦ n | fail _ ↦ total ]) (sym e)
check_legs_lem (leg ∷ legs) seen sum total e = elim (Bool-cases (leg.qty == 0)) [
  | inl z ↦ absurd (failed (rw (z, check_legs) at e))
  | inr z ↦ elim (Bool-cases (seen leg.market)) [
    | inl twice ↦ absurd (failed (rw (z, twice, check_legs) at e))
    | inr once ↦
        let (total_ok, all_pos) =
          check_legs_lem legs (λ m. market_eq m leg.market || seen m) (sum + leg.qty) total
            (rw (z, once, check_legs) at e) in
        (omega (arith, total_ok), (ground arith, all_pos))
  ]
]
  where
    failed : {rc : ErrorCode} → ◌≢◌ {A = Result ℕ} (fail rc) (done total)
    failed e = cc e

pub legs_of_lem :
    (id : ℕ) (legs : List PlanLeg)
    → All (λ (leg : PlanLeg). 0 < leg.qty) legs
    → plan_qty legs ≤ qty_max
    → All LegOk (legs_of id legs) × (legs_sent (legs_of id legs) ≡ plan_qty legs)
unfolding plan_qty ◌+ℤ◌
legs_of_lem id [] _ small = (tt, refl)
legs_of_lem id (leg ∷ legs) (some_qty, all_pos) small =
    let (good, sent) = legs_of_lem id legs all_pos (omega arith) in
    (
      (
        record {
          small = omega arith;
          filled_nonneg = omega arith;
          canceled_nonneg = omega arith;
          bounded = omega arith;
          live_ok = sym (less_than (pos 0) (pos leg.qty) (omega (arith, some_qty)));
        },
        good,
      ),
      omega (arith, sent),
    )

-- A check of the legs that fails has a code.
pub check_legs_fail :
    (legs : List PlanLeg) (seen : Market → Bool) (sum : ℕ) (rc : ErrorCode)
    → check_legs legs seen sum ≡ fail rc
    → is_ok rc ≡ false
unfolding check_legs
check_legs_fail [] seen sum rc e = absurd (not_failed e)
  where
    not_failed : ◌≢◌ {A = Result ℕ} (done sum) (fail rc)
    not_failed e = cc e
check_legs_fail (leg ∷ legs) seen sum rc e = elim (Bool-cases (leg.qty == 0)) [
  | inl z ↦ sym (code_of invalid_qty rc (rw (z, check_legs) at e))
  | inr z ↦ elim (Bool-cases (seen leg.market)) [
    | inl twice ↦ sym (code_of duplicate rc (rw (z, twice, check_legs) at e))
    | inr once ↦
        check_legs_fail legs (λ m. market_eq m leg.market || seen m) (sum + leg.qty) rc
          (rw (z, once, check_legs) at e)
  ]
]
  where
    code_of : (a b : ErrorCode) → ◌≡◌ {A = Result ℕ} (fail a) (fail b) → is_ok a ≡ is_ok b
    code_of a b e = ap (λ (r : Result ℕ). elim r [ done _ ↦ true | fail c ↦ is_ok c ]) e
