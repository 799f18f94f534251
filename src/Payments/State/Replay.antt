-- ===== src/Payments/State/Replay.antt =====
-- Events in any order of delivery: the state that a payment reaches.
use mathlib.Core.List.{Perm}
use reclaim_rail.Base.{◌≡◌, List, arith}
use reclaim_rail.Base.Perm.{run, run-perm}
use reclaim_rail.Payments.State.{PaymentState, decide_payment_transition}
use reclaim_rail.Payments.State.Order.{decide-rank, rank_inj}

pub PaymentState-set : IsSet PaymentState
PaymentState-set = hlevel

-- the state after one event
abbrev pub after : PaymentState → PaymentState → PaymentState
after c i = (decide_payment_transition c i).next_state

-- the state after a sequence of events
abbrev pub replay : PaymentState → List PaymentState → PaymentState
replay = run PaymentState-set after

after_commute : (c i j : PaymentState) → after (after c i) j ≡ after (after c j) i
after_commute c i j = rank_inj (after (after c i) j) (after (after c j) i) (
    ground (
      arith,
      decide-rank c i,
      decide-rank c j,
      decide-rank (after c i) j,
      decide-rank (after c j) i,
    ))

-- Events that are delivered in another order leave the payment in the same state.
pub replay-perm :
    (c : PaymentState) (is js : List PaymentState) → Perm is js → replay c is ≡ replay c js
replay-perm c is js p = run-perm PaymentState-set after after_commute p c
