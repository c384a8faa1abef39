-- ===== src/Matcher/Cross.antt =====
-- venue/include/flox-venue/matcher.h: `cross`, from the checks before the first print to the fate
-- of the remainder.
use venue_core.Prelude.{ℕ, ◌==◌, Bool, true, false, Option, none, some, if◌then◌else◌, ◌&&◌}
use venue_core.Types.{
  OrderType, TimeInForce, MatchPolicy, CancelReason, RejectReason, NewOrder, opposite,
}
use venue_core.Book.{Book, peek_best}
use venue_core.Matcher.Types.{MatchOutcome, no_outcome, Hooks, Matcher, Run, crosses}
use venue_core.Matcher.Plan.{plan_fill_or_kill}
use venue_core.Matcher.Sweep.{Sweep, End, exhausted, stp_canceled, risk_blocked, sweep}
use venue_core.Matcher.ProRata.{pro_rata_sweep}

abbrev pub is_market : NewOrder → Bool
is_market order = elim order.order_type [ OrderType.market ↦ true | _ ↦ false ]

abbrev pub is_fok : NewOrder → Bool
is_fok order = elim order.tif [ TimeInForce.fok ↦ true | _ ↦ false ]

abbrev killed : CancelReason → MatchOutcome → MatchOutcome
killed reason out = record out { residual_canceled = true; residual_cancel_reason = reason }

-- A remainder of an order that neither prevention nor a limit stopped, by its time in force.
unfoldable pub residual_by_tif : TimeInForce → MatchOutcome → MatchOutcome
residual_by_tif TimeInForce.ioc out = killed CancelReason.immediate_or_cancel_residual out
residual_by_tif TimeInForce.fok out = killed CancelReason.fill_or_kill_residual out
residual_by_tif _ out = record out { residual_rests = true }

unfoldable pub residual : NewOrder → End → MatchOutcome → MatchOutcome
unfolding residual_by_tif
residual order stp_canceled out = killed CancelReason.self_trade_prevention out
residual order (risk_blocked reason) out = killed reason out
residual order exhausted out =
    if out.leaves == 0
    then record out { taker_complete = true }
    else if is_market order
    then killed CancelReason.market_residual out
    else residual_by_tif order.tif out

module _ {E : Type 0} (h : Hooks E) (mt : Matcher) (order : NewOrder) (prior_cum_qty : ℕ) where
  abbrev pub rejected : RejectReason → Run E → Option (MatchOutcome × Run E)
  rejected reason r = some (record no_outcome { reject = reason }, r)

  abbrev pub finished : Option (End × Sweep E) → Option (MatchOutcome × Run E)
  finished none = none
  finished (some (end, st)) =
      some
        (residual order end (record no_outcome { filled = st.filled; leaves = st.leaves }), st.run)

  -- The top of the opposite side would trade with the order.
  abbrev pub top_crosses : Book → Bool
  top_crosses b = elim (peek_best (opposite order.side) b) [
    | none ↦ false
    | some top ↦ crosses order.side order.price order.order_type top.price
  ]

  unfoldable pub loop_of : MatchPolicy → ℕ → Sweep E → Option (End × Sweep E)
  loop_of MatchPolicy.price_time_fifo fuel st = sweep h mt order prior_cum_qty fuel st
  loop_of MatchPolicy.pro_rata fuel st = pro_rata_sweep h mt order prior_cum_qty fuel st

  abbrev pub started : Run E → Sweep E
  started r = record { leaves = order.quantity; filled = 0; run = r }

  -- `cross` and `crossProRata`: the checks before the loop and the remainder after it are the same
  -- in both.
  unfoldable pub cross : ℕ → Run E → Option (MatchOutcome × Run E)
  unfolding loop_of plan_fill_or_kill residual
  cross fuel r₀ =
      let r : Run E = record r₀ { plan_active = false } in
      if order.post_only && top_crosses r.book
      then rejected RejectReason.post_only_would_cross r
      else if is_fok order
      then (let (planned, r') = plan_fill_or_kill h mt order (is_market order) r in
          if planned
          then finished (loop_of mt.policy fuel (started r'))
          else rejected RejectReason.fill_or_kill_unfulfillable r')
      else finished (loop_of mt.policy fuel (started r))
