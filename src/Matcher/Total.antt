-- ===== src/Matcher/Total.antt =====
-- The price-time loop of venue/include/flox-venue/matcher.h and its fuel.
use venue_core.Prelude.{
  ℕ, zero, suc, ◌+◌, ◌*◌, ◌-◌, ◌<◌, ◌==◌, ltb, not, true, false, Option, none, some, ◌≡◌, refl,
  arith, Option-cases, inl, inr, if-split, if◌then◌else◌,
}
use venue_core.Types.{StpMode, CancelReason, RestingOrder, NewOrder}
use venue_core.Book.Levels.{total_of, qmin}
use venue_core.Book.Invariant.{WellFormed}
use venue_core.Book.Fills.{size}
use venue_core.Book.{peek_best}
use venue_core.Matcher.Types.{Hooks, Matcher, Run, crosses, resolve_holds}
use venue_core.Matcher.Plan.{own_scope}
use venue_core.Matcher.Stp.{
  StpOutcome, apply_self_trade_prevention, stp_action, decrement_legs, pull_maker, trim_maker,
}
use venue_core.Matcher.Sweep.{
  Sweep, End, exhausted, Turn, again, stops, faults, resting_side, after_stp, maker_turn, turn,
  sweep,
}
use venue_core.Matcher.Callbacks.{
  Tame, work, Down, Down-mono, Front, resolved-Down, held-Front, pulled-Down,
}
use venue_core.Matcher.Bites.{bite_turn-Down}

module _ {E : Type 0} (h : Hooks E) (mt : Matcher) (order : NewOrder) (prior : ℕ)
    (tame : Tame h) where
  module _ (m : RestingOrder) where
    decrement_legs-Down :
        (st : Sweep E)
        → Front h mt order prior tame m st
        → 0 < st.leaves
        → (let (outcome, leaves', r) = decrement_legs h mt order m st.leaves st.run in
            Down h mt order prior tame
              (work h mt order prior tame st)
              (after_stp h mt order prior m outcome (record st { leaves = leaves'; run = r })))
    unfolding decrement_legs after_stp
    decrement_legs-Down st f p =
        let dec = qmin st.leaves (total_of m) in
        let pulled = pull_maker h mt order CancelReason.self_trade_prevention m st.run in
        let legs : Run E =
          if ltb dec (total_of m)
          then trim_maker h mt order m (total_of m - dec) st.run
          else pulled in
        if-split
          (λ o.
            Down h mt order prior tame (work h mt order prior tame st)
              (after_stp h mt order prior m o (record st { leaves = st.leaves - dec; run = legs })))
          ((st.leaves - dec) == 0) (λ e. tt)
          (λ e.
            if-split
              (λ (r : Run E).
                Down h mt order prior tame (work h mt order prior tame st)
                  (again (record st { leaves = st.leaves - dec; run = r })))
              (ltb dec (total_of m)) (λ k. absurd (clash e k))
              (λ k.
                pulled-Down h mt order prior tame m CancelReason.self_trade_prevention
                  (st.leaves - dec) st f (omega arith)))
      where
        clash :
            ((st.leaves - qmin st.leaves (total_of m)) == 0) ≡ false
            → ltb (qmin st.leaves (total_of m)) (total_of m) ≡ true
            → ⊥
        clash e k = ground arith

    stp_action-Down :
        (mode : StpMode) (st : Sweep E)
        → Front h mt order prior tame m st
        → 0 < st.leaves
        → (let (outcome, leaves', r) = stp_action h mt order mode m st.leaves st.run in
            Down h mt order prior tame
              (work h mt order prior tame st)
              (after_stp h mt order prior m outcome (record st { leaves = leaves'; run = r })))
    unfolding stp_action after_stp
    stp_action-Down StpMode.none st f p = bite_turn-Down h mt order prior tame m st f
    stp_action-Down StpMode.cancel_oldest st f p =
        pulled-Down h mt order prior tame m CancelReason.self_trade_prevention st.leaves st f
          (omega arith)
    stp_action-Down StpMode.cancel_newest st f p = tt
    stp_action-Down StpMode.cancel_both st f p = tt
    stp_action-Down StpMode.decrement st f p = decrement_legs-Down st f p

    maker_turn-Down :
        (st : Sweep E)
        → Front h mt order prior tame m st
        → 0 < st.leaves
        → Down h mt order prior tame
            (work h mt order prior tame st)
            (maker_turn h mt order prior m st)
    unfolding maker_turn apply_self_trade_prevention after_stp
    maker_turn-Down st f p =
        if-split {A = StpOutcome × ℕ × Run E}
          (λ x.
            Down h mt order prior tame (work h mt order prior tame st)
              (after_stp h mt order prior m x.0 (record st { leaves = x.1; run = x.2 })))
          (not (own_scope mt order m)) (λ e. bite_turn-Down h mt order prior tame m st f)
          (λ e.
            if-split {A = StpOutcome × ℕ × Run E}
              (λ x.
                Down h mt order prior tame (work h mt order prior tame st)
                  (after_stp h mt order prior m x.0 (record st { leaves = x.1; run = x.2 })))
              (resolve_holds h m.id st.run).0
              (λ y. resolved-Down h mt order prior tame m.id st f.well_formed y)
              (λ y.
                let r : Run E = (resolve_holds h m.id st.run).1 in
                let (still, le) = held-Front h mt order prior tame m.id m st f y in
                let (outcome, leaves', r') = stp_action h mt order order.stp m st.leaves r in
                Down-mono h mt order prior tame (work h mt order prior tame (record st { run = r }))
                  (work h mt order prior tame st)
                  (after_stp h mt order prior m outcome (record st { leaves = leaves'; run = r' }))
                  le (stp_action-Down order.stp (record st { run = r }) still p)))

  turn-Down :
      (st : Sweep E)
      → WellFormed st.run.book
      → 0 < st.leaves
      → Down h mt order prior tame (work h mt order prior tame st) (turn h mt order prior st)
  unfolding turn
  turn-Down st v p = elim (Option-cases (peek_best (resting_side h mt order prior) st.run.book)) [
    | inl e ↦ rw (e, turn) tt
    | inr (m, e) ↦
        rw (e, turn)
          (if-split (Down h mt order prior tame (work h mt order prior tame st))
            (crosses order.side order.price order.order_type m.price)
            (λ c. maker_turn-Down m st (record { well_formed = v; best = e }) p) (λ c. tt))
  ]

  -- From a well-formed book, with tame callbacks, the price-time loop ends without a fault as soon as
  -- its fuel exceeds the work: what the aggressor wants and what its holds may cost, the number of
  -- orders on the book, and what the open holds can give back.
  pub sweep_returns :
      (fuel : ℕ) (st : Sweep E)
      → WellFormed st.run.book
      → st.leaves * suc tame.cost + size st.run.book + tame.pending st.run.env < fuel
      → (x : End × Sweep E) × (sweep h mt order prior fuel st ≡ some x)
  unfolding sweep
  sweep_returns zero st v enough = ground arith
  sweep_returns (suc fuel) st v enough =
      if-split {A = Option (End × Sweep E)} (λ r. (x : End × Sweep E) × (r ≡ some x))
        (st.leaves == 0) (λ e. ((exhausted, st), refl))
        (λ e. step (sweep_returns fuel) (turn h mt order prior st) (turn-Down st v (ground arith)))
    where
      step :
          ((st' : Sweep E)
            → WellFormed st'.run.book
            → st'.leaves * suc tame.cost + size st'.run.book + tame.pending st'.run.env < fuel
            → (x : End × Sweep E) × (sweep h mt order prior fuel st' ≡ some x))
          → (t : Turn E) → Down h mt order prior tame (work h mt order prior tame st) t
          → (x : End × Sweep E) × (elim t as (λ y. Option (End × Sweep E)) [
            | again st' ↦ sweep h mt order prior fuel st'
            | stops end st' ↦ some (end, st')
            | faults ↦ none
          ]
              ≡ some x)
      step ih (again st') d = ih st' d.0 (omega (arith, d.1, enough))
      step ih (stops end st') d = ((end, st'), refl)
      step ih faults d = absurd d
