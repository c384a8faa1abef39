-- ===== src/Matcher/Sound.antt =====
-- The invariant of both loops of venue/include/flox-venue/matcher.h, and the steps that the loops
-- share.
pub mod Fifo
pub mod Levels
pub mod Result
pub mod Outcome
use venue_core.Prelude.{
  subst, sym, ℕ, zero, suc, ◌+◌, ◌-◌, ◌≤◌, ◌==◌, ltb, Bool, true, false, not, Option, none, some,
  List, [], ◌∷◌, if◌then◌else◌, ◌||◌, ◌&&◌, ◌≡◌, refl, All, sum_by, arith, Bool-cases, Option-cases,
  inl, inr, ◌⊎◌,
}
use venue_core.Types.{
  Side, StpMode, Trade, Event, traded, executed, canceled, CancelReason, RestingOrder, NewOrder,
}
use venue_core.Book.Levels.{total_of, qmin}
use venue_core.Matcher.Types.{FillLimit, Hooks, Matcher, Run, stp_scope, crosses, resolve_holds}
use venue_core.Matcher.Plan.{has_stp, own_scope, is_set, bite_limit, spend_plan, planned_fill_limit}
use venue_core.Matcher.Stp.{
  StpOutcome, not_applicable, re_peek, cancel_taker, pull_maker, trim_maker, decrement_legs,
  stp_action, apply_self_trade_prevention,
}
use venue_core.Matcher.Sweep.{Sweep, Turn, again, stops, faults, print_trade, report_fill}

-- A print that a venue may stand behind: within the aggressor's limit, and never between two
-- accounts of one scope if the aggressor asked for prevention.
pub record Fair (mt : Matcher) (order : NewOrder) (t : Trade) : Type 0 where
  pub in_limit : crosses order.side order.price order.order_type t.price ≡ true
  pub two_scopes :
      (has_stp order.stp && (stp_scope mt t.maker_account == stp_scope mt t.taker_account)) ≡ false
  pub for_taker : (t.taker_id ≡ order.id) × (t.taker_account ≡ order.account_id)

abbrev pub FairEvent : Matcher → NewOrder → Event → Type 0
FairEvent mt order (traded t) = Fair mt order t
FairEvent mt order (executed x) = Unit {0}
FairEvent mt order (canceled x) = Unit {0}

abbrev pub traded_qty : Event → ℕ
traded_qty (traded t) = t.quantity
traded_qty (executed x) = 0
traded_qty (canceled x) = 0

abbrev pub decrements : StpMode → Bool
decrements StpMode.decrement = true
decrements _ = false

-- The events of a run are fair, and their prints add up.
pub record Clean (mt : Matcher) (order : NewOrder) (printed : ℕ) (events : List Event)
    : Type 0 where
  pub fair : All (FairEvent mt order) events
  pub adds_up : sum_by traded_qty events ≡ printed

-- Nothing takes from the aggressor's quantity but a print, a hold and a decrement.
abbrev pub Exact : {E : Type 0} → Hooks E → NewOrder → ℕ → ℕ → Type 0
Exact h order leaves filled =
    is_set h.last_look ≡ false → decrements order.stp ≡ false → leaves + filled ≡ order.quantity

pub record Sound {E : Type 0} (h : Hooks E) (mt : Matcher) (order : NewOrder) (st : Sweep E)
    : Type 0 where
  pub clean : Clean mt order st.filled st.run.events
  pub within : st.leaves + st.filled ≤ order.quantity
  pub exact : Exact h order st.leaves st.filled

-- A property of the state that a turn ends in.
abbrev pub OnTurn : {E : Type 0} → (Sweep E → Type 0) → Turn E → Type 0
OnTurn P (again st) = P st
OnTurn P (stops end st) = P st
OnTurn P faults = Unit {0}

abbrev pub OnSome : {A : Type 0} → (A → Type 0) → Option A → Type 0
OnSome P none = Unit {0}
OnSome P (some x) = P x

module _ {E : Type 0} (h : Hooks E) (mt : Matcher) (order : NewOrder) where
  pub events-resolve_holds : (id : ℕ) (r : Run E) → (resolve_holds h id r).1.events ≡ r.events
  unfolding resolve_holds
  events-resolve_holds id r = ground arith

  pub pull_maker-Clean :
      (reason : CancelReason) (m : RestingOrder) (n : ℕ) (r : Run E)
      → Clean mt order n r.events
      → Clean mt order n (pull_maker h mt order reason m r).events
  unfolding pull_maker
  pull_maker-Clean reason m n r c = record {
    fair = (tt, c.fair);
    adds_up = omega (arith, c.adds_up);
  }

  pub events-bite_limit :
      (m : RestingOrder) (want : ℕ) (r : Run E)
      → (bite_limit h mt order m want r).1.events ≡ r.events
  unfolding bite_limit
  events-bite_limit m want r = ground arith

  pub events-spend_plan : (id q : ℕ) (r : Run E) → (spend_plan id q r).events ≡ r.events
  unfolding spend_plan
  events-spend_plan id q r = ground arith

  -- Where prevention does not apply the maker is of another scope, and nothing has changed.
  pub stp_foreign :
      (m : RestingOrder) (leaves : ℕ) (r : Run E)
      → (apply_self_trade_prevention h mt order m leaves r).0 ≡ not_applicable
      → own_scope mt order m ≡ false
  unfolding apply_self_trade_prevention
  stp_foreign m leaves r e = ground arith

  -- What prevention leaves of the aggressor, and of the events.
  abbrev pub StpKept : StpMode → ℕ → ℕ → StpOutcome × ℕ × Run E → Type 0
  StpKept mode leaves n x =
      Clean mt order n x.2.events × (x.1 ≤ leaves) × (decrements mode ≡ false → x.1 ≡ leaves)

  trim_maker-events :
      (m : RestingOrder) (q : ℕ) (r : Run E) → (trim_maker h mt order m q r).events ≡ r.events
  unfolding trim_maker
  trim_maker-events m q r = refl

  stp_action-StpKept :
      (mode : StpMode) (m : RestingOrder) (leaves n : ℕ) (r : Run E)
      → Clean mt order n r.events
      → StpKept mode leaves n (stp_action h mt order mode m leaves r)
  unfolding stp_action
  stp_action-StpKept StpMode.none m leaves n r c = (c, omega arith, λ _. refl)
  stp_action-StpKept StpMode.cancel_newest m leaves n r c = (c, omega arith, λ _. refl)
  stp_action-StpKept StpMode.cancel_oldest m leaves n r c =
      (pull_maker-Clean CancelReason.self_trade_prevention m n r c, omega arith, λ _. refl)
  stp_action-StpKept StpMode.cancel_both m leaves n r c =
      (pull_maker-Clean CancelReason.self_trade_prevention m n r c, omega arith, λ _. refl)
  stp_action-StpKept StpMode.decrement m leaves n r c = (trimmed, omega arith, λ e. cc)
    where
      trimmed : Clean mt order n (decrement_legs h mt order m leaves r).2.events
      trimmed = elim (Bool-cases (ltb (qmin leaves (total_of m)) (total_of m))) [
        | inl t ↦ rw t c
        | inr t ↦ rw t (pull_maker-Clean CancelReason.self_trade_prevention m n r c)
      ]

  pub stp-StpSound :
      (m : RestingOrder) (leaves n : ℕ) (r : Run E)
      → Clean mt order n r.events
      → StpKept order.stp leaves n (apply_self_trade_prevention h mt order m leaves r)
  unfolding apply_self_trade_prevention
  stp-StpSound m leaves n r c = elim (Bool-cases (own_scope mt order m)) [
    | inl t ↦ rw t (elim (Bool-cases ((resolve_holds h m.id r).0)) [
      | inl u ↦ rw u (kept, omega arith, λ _. refl)
      | inr u ↦ rw u (stp_action-StpKept order.stp m leaves n (resolve_holds h m.id r).1 kept)
    ])
    | inr t ↦ rw t (c, omega arith, λ _. refl)
  ]
    where
      kept : Clean mt order n (resolve_holds h m.id r).1.events
      kept = subst (Clean mt order n) (sym (events-resolve_holds m.id r)) c

  -- A print of a maker of another scope, within the limit, with its reports.
  pub fill-Clean :
      (prior : ℕ) (m : RestingOrder) (fill leaves n : ℕ) (r r' : Run E)
      → crosses order.side order.price order.order_type m.price ≡ true
      → own_scope mt order m ≡ false
      → Clean mt order n r.events
      → r'.events ≡ (print_trade h mt order prior m fill r).events
      → Clean mt order (n + fill) (report_fill h mt order prior m fill leaves (n + fill) r').events
  unfolding print_trade report_fill
  fill-Clean prior m fill leaves n r r' x s c e = record {
    fair = (
      tt,
      (
        tt,
        subst (All (FairEvent mt order)) (sym e)
            (record { in_limit = x; two_scopes = s; for_taker = (refl, refl) }, c.fair),
      ),
    );
    adds_up = ground (arith, e, c.adds_up);
  }
