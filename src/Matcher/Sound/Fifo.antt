-- ===== src/Matcher/Sound/Fifo.antt =====
-- The turns of the price-time loop of venue/include/flox-venue/matcher.h against `Sound`.
use venue_core.Prelude.{
  ℕ, zero, suc, ◌-◌, ◌≤◌, ◌==◌, ltb, true, false, Option, none, some, ◌≡◌, refl, arith, Bool-cases,
  if-split, Option-cases, inl, inr, subst, sym,
}
use venue_core.Types.{CancelReason, RestingOrder, NewOrder}
use venue_core.Book.Levels.{qmin}
use venue_core.Book.{fill_best, peek_best}
use venue_core.Matcher.Types.{FillLimit, Hooks, Matcher, Run, crosses, resolve_holds}
use venue_core.Matcher.Plan.{own_scope, bite_limit, spend_plan}
use venue_core.Matcher.Stp.{
  StpOutcome, not_applicable, re_peek, cancel_taker, apply_self_trade_prevention,
}
use venue_core.Matcher.Sweep.{
  Sweep, End, Turn, again, stops, faults, print_trade, resting_side, fill_turn, hold_turn,
  take_turn, take_with, blocked_turn, limited_turn, bite_turn, after_stp, maker_turn, turn, sweep,
}
use venue_core.Matcher.Sound.{
  Clean, Sound, OnTurn, events-resolve_holds, pull_maker-Clean, events-bite_limit,
  events-spend_plan, stp_foreign, stp-StpSound, StpKept, fill-Clean,
}

module _ {E : Type 0} (h : Hooks E) (mt : Matcher) (order : NewOrder) (prior : ℕ) where
  abbrev Kept : Turn E → Type 0
  Kept t = OnTurn (Sound h mt order) t

  -- The invariant looks at the events of a run only.
  Sound-events :
      (st : Sweep E) (r : Run E)
      → r.events ≡ st.run.events
      → Sound h mt order st
      → Sound h mt order (record st { run = r })
  Sound-events st r e s = record {
    clean = subst (Clean mt order st.filled) (sym e) s.clean;
    within = s.within;
    exact = s.exact;
  }

  module _ (m : RestingOrder)
      (near : crosses order.side order.price order.order_type m.price ≡ true)
      (foreign : own_scope mt order m ≡ false) where
    fill_turn-Kept :
        (fill : ℕ) (st : Sweep E)
        → fill ≤ st.leaves
        → Sound h mt order st
        → Kept (fill_turn h mt order prior m fill st)
    unfolding fill_turn
    fill_turn-Kept fill st b s =
        elim (Option-cases (
          fill_best (resting_side h mt order prior) fill
            (print_trade h mt order prior m fill st.run).book)) [
              | inl e ↦ rw (e, fill_turn) tt
              | inr (book', e) ↦
                  rw (e, fill_turn)
                    (record {
                      clean =
                          fill-Clean h mt order prior m fill (st.leaves - fill) st.filled st.run
                            (spend_plan m.id fill
                              (record (print_trade h mt order prior m fill st.run) {
                                book = book';
                              }))
                            near foreign s.clean
                            (events-spend_plan h mt order m.id fill
                              (record (print_trade h mt order prior m fill st.run) {
                                book = book';
                              }));
                      within = omega (arith, s.within);
                      exact = λ l d. omega (arith, s.exact l d);
                    })
            ]

    hold_turn-Kept :
        (look : E → RestingOrder → ℕ → NewOrder → ℕ → E) (held : ℕ) (st : Sweep E)
        → h.last_look ≡ some look
        → held ≤ st.leaves
        → Sound h mt order st
        → Kept (hold_turn h mt order prior look m held st)
    unfolding hold_turn
    hold_turn-Kept look held st l b s =
        elim (Option-cases (fill_best (resting_side h mt order prior) held st.run.book)) [
          | inl e ↦ rw (e, hold_turn) tt
          | inr (book', e) ↦
              rw (e, hold_turn)
                (record {
                  clean = record { fair = s.clean.fair; adds_up = s.clean.adds_up };
                  within = omega (arith, s.within);
                  exact = λ off d. ground (arith, l, off);
                })
        ]

    take_with-Kept :
        (look : Option (E → RestingOrder → ℕ → NewOrder → ℕ → E)) (allowed : ℕ) (st : Sweep E)
        → h.last_look ≡ look
        → allowed ≤ st.leaves
        → Sound h mt order st
        → Kept (take_with h mt order prior look m allowed st)
    unfolding take_with
    take_with-Kept none allowed st l b s = fill_turn-Kept allowed st b s
    take_with-Kept (some look) allowed st l b s =
        if-split Kept m.last_look (λ f. hold_turn-Kept look allowed st l b s)
          (λ f. fill_turn-Kept allowed st b s)

    take_turn-Kept :
        (allowed : ℕ) (st : Sweep E)
        → Sound h mt order st
        → Kept (take_turn h mt order prior m allowed st)
    unfolding take_turn
    take_turn-Kept allowed st s = elim (Bool-cases (ltb st.leaves allowed)) [
      | inl e ↦ rw e tt
      | inr e ↦ rw e (take_with-Kept h.last_look allowed st refl (ground arith) s)
    ]

    blocked_turn-Kept :
        (reason : CancelReason) (st : Sweep E)
        → Sound h mt order st
        → Kept (blocked_turn h mt order prior m reason st)
    unfolding blocked_turn
    blocked_turn-Kept reason st s = elim (Bool-cases ((resolve_holds h m.id st.run).0)) [
      | inl e ↦ rw e (
          Sound-events st (resolve_holds h m.id st.run).1
            (events-resolve_holds h mt order m.id st.run) s)
      | inr e ↦ rw e (record {
        clean =
            pull_maker-Clean h mt order reason m st.filled (resolve_holds h m.id st.run).1
              (Sound-events st (resolve_holds h m.id st.run).1
                (events-resolve_holds h mt order m.id st.run) s).clean;
        within = s.within;
        exact = s.exact;
      })
    ]

    limited_turn-Kept :
        (want : ℕ) (lim : Option FillLimit) (st : Sweep E)
        → Sound h mt order st
        → Kept (limited_turn h mt order prior m want lim st)
    unfolding limited_turn
    limited_turn-Kept want none st s = take_turn-Kept want st s
    limited_turn-Kept want (some lim) st s =
        if-split Kept (lim.qty == 0)
          (λ z. if-split Kept lim.maker_blocked (λ f. blocked_turn-Kept lim.reason st s) (λ f. s))
          (λ z. take_turn-Kept lim.qty st s)

    bite_turn-Kept : (st : Sweep E) → Sound h mt order st → Kept (bite_turn h mt order prior m st)
    unfolding bite_turn
    bite_turn-Kept st s =
        let want : ℕ = qmin st.leaves m.leaves in
        if-split Kept (want == 0) (λ z. s)
          (λ z.
            limited_turn-Kept want (bite_limit h mt order m want st.run).0
              (record st { run = (bite_limit h mt order m want st.run).1 })
              (Sound-events st (bite_limit h mt order m want st.run).1
                (events-bite_limit h mt order m want st.run) s))

  after_stp-Kept :
      (m : RestingOrder) (outcome : StpOutcome) (st : Sweep E)
      → crosses order.side order.price order.order_type m.price ≡ true
      → (outcome ≡ not_applicable → own_scope mt order m ≡ false)
      → Sound h mt order st
      → Kept (after_stp h mt order prior m outcome st)
  unfolding after_stp
  after_stp-Kept m not_applicable st x f s = bite_turn-Kept m x (f refl) st s
  after_stp-Kept m re_peek st x f s = s
  after_stp-Kept m cancel_taker st x f s = s

  maker_turn-Kept :
      (m : RestingOrder) (st : Sweep E)
      → crosses order.side order.price order.order_type m.price ≡ true
      → Sound h mt order st
      → Kept (maker_turn h mt order prior m st)
  unfolding maker_turn
  maker_turn-Kept m st x s = after_stp-Kept m _ _ x (stp_foreign h mt order m st.leaves st.run) (
      let kept : StpKept h mt order order.stp st.leaves st.filled
          (apply_self_trade_prevention h mt order m st.leaves st.run) =
        stp-StpSound h mt order m st.leaves st.filled st.run s.clean in
      record {
        clean = kept.0;
        within = omega (arith, kept.1, s.within);
        exact = λ l d. omega (arith, kept.2 d, s.exact l d);
      })

  turn-Kept : (st : Sweep E) → Sound h mt order st → Kept (turn h mt order prior st)
  unfolding turn
  turn-Kept st s = elim (Option-cases (peek_best (resting_side h mt order prior) st.run.book)) [
    | inl e ↦ rw (e, turn) s
    | inr (m, e) ↦
        rw (e, turn)
          (if-split Kept (crosses order.side order.price order.order_type m.price)
            (λ x. maker_turn-Kept m st x s) (λ x. s))
  ]

  turned :
      (t : Turn E) (fuel : ℕ) {end : End} {st' : Sweep E}
      → ((st : Sweep E)
          → Sound h mt order st
          → sweep h mt order prior fuel st ≡ some (end, st')
          → Sound h mt order st')
      → Kept t
      → (elim t [
        | again st ↦ sweep h mt order prior fuel st
        | stops e st ↦ some (e, st)
        | faults ↦ none
      ])
        ≡ some (end, st')
      → Sound h mt order st'
  turned (again st) fuel next k e = next st k e
  turned (stops e' st) fuel next k e =
      subst (Sound h mt order) (let same : st ≡ _ = ground arith in same) k
  turned faults fuel next k e = cc

  -- The loop keeps the invariant, however it ends.
  pub sweep-Sound :
      (fuel : ℕ) (st : Sweep E) {end : End} {st' : Sweep E}
      → Sound h mt order st
      → sweep h mt order prior fuel st ≡ some (end, st')
      → Sound h mt order st'
  unfolding sweep
  sweep-Sound zero st s e = cc
  sweep-Sound (suc fuel) st {end} {st'} s e = elim (Bool-cases (st.leaves == 0)) [
    | inl z ↦ subst (Sound h mt order) (let same : st ≡ st' = ground arith in same) s
    | inr z ↦
        turned (turn h mt order prior st) fuel (λ st₁ s₁ e₁. sweep-Sound fuel st₁ s₁ e₁)
          (turn-Kept st s) (rw z at e)
  ]
