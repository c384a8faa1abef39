-- ===== src/Matcher/Stp.antt =====
-- venue/include/flox-venue/matcher.h: self-trade prevention for one aggressor and one maker.
use venue_core.Prelude.{ℕ, ◌-◌, ◌==◌, ltb, not, none, some, if◌then◌else◌}
use venue_core.Types.{StpMode, CancelReason, RestingOrder, NewOrder, canceled}
use venue_core.Book.Levels.{total_of, qmin}
use venue_core.Book.{cancel, reduce_total}
use venue_core.Matcher.Types.{Hooks, Matcher, Run, emit, resolve_holds}
use venue_core.Matcher.Plan.{own_scope}

pub data StpOutcome : Type 0 where
  not_applicable re_peek cancel_taker : StpOutcome

module _ {E : Type 0} (h : Hooks E) (mt : Matcher) (order : NewOrder) where
  -- The report of a maker that the matcher takes off the book, and its removal.
  unfoldable pub pull_maker : CancelReason → RestingOrder → Run E → Run E
  pull_maker reason m r =
      let told =
        emit h
          (canceled (record {
            id = m.id;
            symbol = order.symbol;
            reason = reason;
            account = m.account_id;
            client_order_id = m.client_order_id;
            leaves_qty = total_of m;
            cum_qty = m.cum_qty;
          }))
          r in
      record told { book = (cancel m.id told.book).1 }

  -- Trimming the maker in place, and telling the engine.
  unfoldable pub trim_maker : RestingOrder → ℕ → Run E → Run E
  trim_maker m trimmed_to r = record r {
    book = (reduce_total m.id trimmed_to r.book).1;
    env = elim h.resting_reduced [ none ↦ r.env | some f ↦ f r.env m.id (total_of m) trimmed_to ];
  }

  unfoldable pub decrement_legs : RestingOrder → ℕ → Run E → StpOutcome × ℕ × Run E
  unfolding pull_maker trim_maker
  decrement_legs m leaves r =
      let dec = qmin leaves (total_of m) in
      (
        if (leaves - dec) == 0 then cancel_taker else re_peek,
        leaves - dec,
        if ltb dec (total_of m)
            then trim_maker m (total_of m - dec) r
            else pull_maker CancelReason.self_trade_prevention m r,
      )

  unfoldable pub stp_action : StpMode → RestingOrder → ℕ → Run E → StpOutcome × ℕ × Run E
  unfolding decrement_legs pull_maker
  stp_action StpMode.none m leaves r = (not_applicable, leaves, r)
  stp_action StpMode.cancel_oldest m leaves r =
      (re_peek, leaves, pull_maker CancelReason.self_trade_prevention m r)
  stp_action StpMode.cancel_newest m leaves r = (cancel_taker, leaves, r)
  stp_action StpMode.cancel_both m leaves r =
      (cancel_taker, leaves, pull_maker CancelReason.self_trade_prevention m r)
  stp_action StpMode.decrement m leaves r = decrement_legs m leaves r

  -- `applySelfTradePrevention`, with the aggressor's remaining quantity.
  unfoldable pub apply_self_trade_prevention : RestingOrder → ℕ → Run E → StpOutcome × ℕ × Run E
  unfolding stp_action resolve_holds
  apply_self_trade_prevention m leaves r =
      if not (own_scope mt order m)
      then (not_applicable, leaves, r)
      else let (resolved, r') = resolve_holds h m.id r in
        if resolved then (re_peek, leaves, r') else stp_action order.stp m leaves r'
