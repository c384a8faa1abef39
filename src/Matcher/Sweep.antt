-- ===== src/Matcher/Sweep.antt =====
-- venue/include/flox-venue/matcher.h: the price-time loop of `cross`, one turn at a time.
use venue_core.Prelude.{
  ℕ, zero, suc, ◌+◌, ◌-◌, ◌==◌, ltb, true, false, Option, none, some, if◌then◌else◌,
}
use venue_core.Types.{Side, CancelReason, RestingOrder, NewOrder, traded, executed, opposite}
use venue_core.Book.Levels.{total_of, qmin}
use venue_core.Book.{peek_best, fill_best}
use venue_core.Matcher.Types.{FillLimit, Hooks, Matcher, Run, emit, resolve_holds, crosses}
use venue_core.Matcher.Plan.{bite_limit, spend_plan}
use venue_core.Matcher.Stp.{
  StpOutcome, not_applicable, re_peek, cancel_taker, apply_self_trade_prevention, pull_maker,
}

-- The variables of the loop.
pub record Sweep (E : Type 0) : Type 0 where
  pub leaves : ℕ
  pub filled : ℕ
  pub run : Run E

-- Why the loop was left: nothing more to take, `takerCanceledBySTP`, or `takerRiskBlocked`.
pub data End : Type 0 where
  exhausted stp_canceled : End
  risk_blocked : CancelReason → End

-- One turn of the loop: go on, leave, or a quantity went below zero.
pub data Turn (E : Type 0) : Type 0 where
  again : Sweep E → Turn E
  stops : End → Sweep E → Turn E
  faults : Turn E

module _ {E : Type 0} (h : Hooks E) (mt : Matcher) (order : NewOrder) (prior_cum_qty : ℕ) where
  abbrev pub resting_side : Side
  resting_side = opposite order.side

  -- The reports of a print, in the order in which they go out after the book was filled.
  unfoldable pub report_fill : RestingOrder → ℕ → ℕ → ℕ → Run E → Run E
  report_fill m fill leaves filled r =
      emit h
        (executed (record {
          id = order.id;
          symbol = order.symbol;
          last_qty = fill;
          leaves_qty = leaves;
          aggressor = true;
          complete = leaves == 0;
          last_px = m.price;
          display_leaves = leaves;
          account = order.account_id;
          client_order_id = order.client_order_id;
          cum_qty = prior_cum_qty + filled;
        }))
        (emit h
          (executed (record {
            id = m.id;
            symbol = order.symbol;
            last_qty = fill;
            leaves_qty = total_of m - fill;
            aggressor = false;
            complete = (total_of m - fill) == 0;
            last_px = m.price;
            display_leaves = if ltb fill m.leaves then m.leaves - fill else qmin m.peak m.hidden;
            account = m.account_id;
            client_order_id = m.client_order_id;
            cum_qty = m.cum_qty + fill;
          }))
          r)

  unfoldable pub print_trade : RestingOrder → ℕ → Run E → Run E
  print_trade m fill r =
      let (trade_id, env') = h.next_trade_id r.env in
      emit h
        (traded (record {
          trade_id = trade_id;
          symbol = order.symbol;
          price = m.price;
          quantity = fill;
          maker_id = m.id;
          taker_id = order.id;
          taker_side = order.side;
          maker_account = m.account_id;
          taker_account = order.account_id;
        }))
        (record r { env = env' })

  -- A firm fill of the best maker.
  unfoldable pub fill_turn : RestingOrder → ℕ → Sweep E → Turn E
  unfolding print_trade report_fill spend_plan
  fill_turn m fill st =
      let printed = print_trade m fill st.run in
      elim (fill_best resting_side fill printed.book) [
        | none ↦ faults
        | some book' ↦
            let spent = spend_plan m.id fill (record printed { book = book' }) in
            again (record {
              leaves = st.leaves - fill;
              filled = st.filled + fill;
              run = report_fill m fill (st.leaves - fill) (st.filled + fill) spent;
            })
      ]

  -- A last-look maker holds the hit: the size leaves the book, and nothing trades yet.
  unfoldable pub hold_turn :
      (E → RestingOrder → ℕ → NewOrder → ℕ → E) → RestingOrder → ℕ → Sweep E → Turn E
  hold_turn look m held st = elim (fill_best resting_side held st.run.book) [
    | none ↦ faults
    | some book' ↦ again (record {
      leaves = st.leaves - held;
      filled = st.filled;
      run = record (st.run) {
        book = book';
        env = look st.run.env m held order (prior_cum_qty + st.filled);
      };
    })
  ]

  -- `if (m->lastLook && onLastLook_)`: the bite is held, and it trades otherwise.
  unfoldable pub take_with :
      Option (E → RestingOrder → ℕ → NewOrder → ℕ → E) → RestingOrder → ℕ → Sweep E → Turn E
  unfolding fill_turn hold_turn
  take_with none m allowed st = fill_turn m allowed st
  take_with (some look) m allowed st =
      if m.last_look then hold_turn look m allowed st else fill_turn m allowed st

  -- What is allowed of a bite is taken. A limit above the bite would leave a negative remainder.
  unfoldable pub take_turn : RestingOrder → ℕ → Sweep E → Turn E
  unfolding take_with
  take_turn m allowed st =
      if ltb st.leaves allowed then faults else take_with h.last_look m allowed st

  -- A maker whose own limits leave it nothing is pulled, holds first.
  unfoldable pub blocked_turn : RestingOrder → CancelReason → Sweep E → Turn E
  unfolding resolve_holds pull_maker
  blocked_turn m reason st =
      let (resolved, r) = resolve_holds h m.id st.run in
      again (record st { run = if resolved then r else pull_maker h mt order reason m r })

  unfoldable pub limited_turn : RestingOrder → ℕ → Option FillLimit → Sweep E → Turn E
  unfolding take_turn blocked_turn
  limited_turn m want none st = take_turn m want st
  limited_turn m want (some lim) st =
      if lim.qty == 0
      then (if lim.maker_blocked
          then blocked_turn m lim.reason st
          else stops (risk_blocked lim.reason) st)
      else take_turn m lim.qty st

  unfoldable pub bite_turn : RestingOrder → Sweep E → Turn E
  unfolding limited_turn bite_limit
  bite_turn m st =
      let want = qmin st.leaves m.leaves in
      if want == 0
      then stops exhausted st
      else let (lim, r) = bite_limit h mt order m want st.run in
        limited_turn m want lim (record st { run = r })

  -- What self-trade prevention says of the best maker.
  unfoldable pub after_stp : RestingOrder → StpOutcome → Sweep E → Turn E
  unfolding bite_turn
  after_stp m not_applicable st = bite_turn m st
  after_stp m re_peek st = again st
  after_stp m cancel_taker st = stops stp_canceled st

  unfoldable pub maker_turn : RestingOrder → Sweep E → Turn E
  unfolding after_stp apply_self_trade_prevention
  maker_turn m st =
      let (outcome, leaves', r) = apply_self_trade_prevention h mt order m st.leaves st.run in
      after_stp m outcome (record st { leaves = leaves'; run = r })

  unfoldable pub turn : Sweep E → Turn E
  unfolding maker_turn
  turn st = elim (peek_best resting_side st.run.book) [
    | none ↦ stops exhausted st
    | some m ↦
        if crosses order.side order.price order.order_type m.price
        then maker_turn m st
        else stops exhausted st
  ]

  -- `while (!leaves.isZero())`, on fuel.
  unfoldable pub sweep : ℕ → Sweep E → Option (End × Sweep E)
  unfolding turn
  sweep zero st = none
  sweep (suc fuel) st = if st.leaves == 0 then some (exhausted, st) else elim (turn st) [
    | again st' ↦ sweep fuel st'
    | stops end st' ↦ some (end, st')
    | faults ↦ none
  ]
