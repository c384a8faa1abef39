-- ===== src/Matcher/Types.antt =====
-- venue/include/flox-venue/matcher.h: outcome, limits, hooks and the state of one crossing.
use venue_core.Prelude.{
  ℕ, ◌==◌, Bool, true, false, Option, none, some, List, [], ◌∷◌, if◌then◌else◌,
}
use venue_core.Prelude.Int.{ℤ, pos, ◌+ℤ◌, leb_ℤ}
use venue_core.Types.{
  Side, buy, sell, OrderType, RejectReason, CancelReason, MatchPolicy, RestingOrder, NewOrder,
  Event,
}
use venue_core.Book.{Book}

pub record MatchOutcome : Type 0 where
  pub filled : ℕ
  pub leaves : ℕ
  pub taker_complete : Bool
  pub reject : RejectReason
  pub residual_rests : Bool
  pub residual_canceled : Bool
  pub residual_cancel_reason : CancelReason

abbrev pub no_outcome : MatchOutcome
no_outcome = record {
  filled = 0;
  leaves = 0;
  taker_complete = false;
  reject = RejectReason.none;
  residual_rests = false;
  residual_canceled = false;
  residual_cancel_reason = CancelReason.user_requested;
}

pub record FillLimit : Type 0 where
  pub qty : ℕ
  pub maker_qty : ℕ
  pub taker_qty : ℕ
  pub maker_blocked : Bool
  pub taker_blocked : Bool
  pub reason : CancelReason

pub record PlannedBite : Type 0 where
  pub maker : ℕ
  pub allowed_raw : ℕ
  pub blocked : Bool
  pub reason : CancelReason

-- `PositionDeltas`: signed position changes by account, in order of first appearance.
abbrev pub PositionDeltas : Type 0
PositionDeltas = List (ℕ × ℤ)

unfoldable pub delta_of : ℕ → PositionDeltas → ℤ
delta_of account [] = pos 0
delta_of account ((a, d) ∷ v) = if a == account then d else delta_of account v

unfoldable pub add_delta : ℕ → ℤ → PositionDeltas → PositionDeltas
add_delta account delta [] = (account, delta) ∷ []
add_delta account delta ((a, d) ∷ v) =
    if a == account then (a, d +ℤ delta) ∷ v else (a, d) ∷ add_delta account delta v

abbrev pub crosses : Side → ℤ → OrderType → ℤ → Bool
crosses taker_side taker_price OrderType.market resting_price = true
crosses buy taker_price _ resting_price = leb_ℤ resting_price taker_price
crosses sell taker_price _ resting_price = leb_ℤ taker_price resting_price

-- The callbacks, over the state `E` of the engine behind them. A missing one is `none`. A limit
-- callback reads the state only; the hold callback may give quantity back to the book.
pub record Hooks (E : Type 0) : Type 0 where
  pub last_look : Option (E → RestingOrder → ℕ → NewOrder → ℕ → E)
  pub resting_holds : Option (E → Book → ℕ → Bool × E × Book)
  pub resting_reduced : Option (E → ℕ → ℕ → ℕ → E)
  pub fill_limit : Option (E → RestingOrder → NewOrder → ℕ → FillLimit)
  pub fill_limit_dry : Option (E → RestingOrder → NewOrder → ℕ → PositionDeltas → FillLimit)
  pub next_trade_id : E → ℕ × E
  pub sink : E → Event → E

-- What a matcher is configured with.
pub record Matcher : Type 0 where
  pub policy : MatchPolicy
  pub stp_group : List (ℕ × ℕ)

abbrev without : ℕ → List (ℕ × ℕ) → List (ℕ × ℕ)
without account [] = []
without account ((a, g) ∷ t) =
    if a == account then without account t else (a, g) ∷ without account t

-- `setStpGroup`: group 0 removes the membership.
unfoldable pub set_stp_group : ℕ → ℕ → Matcher → Matcher
set_stp_group account group m = record m {
  stp_group =
      if group == 0
      then without account m.stp_group
      else (account, group) ∷ without account m.stp_group;
}

abbrev group_or : ℕ → List (ℕ × ℕ) → ℕ
group_or account [] = account
group_or account ((a, g) ∷ t) = if a == account then g else group_or account t

-- `stpScope`: the firm group of an account, else the account itself.
unfoldable pub stp_scope : Matcher → ℕ → ℕ
stp_scope m account = group_or account m.stp_group

pub record Run (E : Type 0) : Type 0 where
  pub book : Book
  pub env : E
  pub events : List Event
  pub plan : List PlannedBite
  pub plan_cursor : ℕ
  pub plan_active : Bool
  pub skipped_last_look_pro_rata : ℕ
  pub skipped_risk_pro_rata : ℕ
  pub fok_prechecks : ℕ
  pub fok_risk_constrained : ℕ
  pub fok_rejected : ℕ

-- A call of the sink.
abbrev pub emit : {E : Type 0} → Hooks E → Event → Run E → Run E
emit h e r = record r { env = h.sink r.env e; events = e ∷ r.events }

-- `onRestingHolds_ && onRestingHolds_(id)`.
unfoldable pub resolve_holds : {E : Type 0} → Hooks E → ℕ → Run E → Bool × Run E
resolve_holds h id r = elim h.resting_holds [
  | none ↦ (false, r)
  | some f ↦
      let (resolved, env', book') = f r.env r.book id in
      (resolved, record r { env = env'; book = book' })
]
