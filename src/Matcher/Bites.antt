-- ===== src/Matcher/Bites.antt =====
-- A bite of the price-time loop of venue/include/flox-venue/matcher.h lowers the work that is left.
use venue_core.Prelude.{
  ◌-◌, ℕ, ◌+◌, ◌≤◌, ◌<◌, ◌==◌, ltb, Option, none, some, ◌≡◌, refl, sym, ◌∙◌, ap, subst, arith,
  Option-cases, inl, inr, if-split,
}
use venue_core.Types.{CancelReason, RestingOrder, NewOrder}
use venue_core.Book.Levels.{qmin}
use venue_core.Book.Invariant.{WellFormed}
use venue_core.Book.Fills.{size}
use venue_core.Book.Best.{fill_best-Filled}
use venue_core.Book.{peek_best}
use venue_core.Matcher.Types.{FillLimit, Hooks, Matcher, Run, resolve_holds}
use venue_core.Matcher.Plan.{bite_limit, planned_fill_limit, planned_bite, spend_plan, unlimited}
use venue_core.Matcher.Stp.{pull_maker}
use venue_core.Matcher.Sweep.{
  Sweep, again, resting_side, report_fill, print_trade, fill_turn, hold_turn, take_with, take_turn,
  blocked_turn, limited_turn, bite_turn,
}
use venue_core.Matcher.Callbacks.{
  Tame, spent_leaves, work, Down, Down-mono, book-spend_plan, env-spend_plan, report_fill-quiet,
  print_trade-quiet, Front, resolved-Down, held-Front, pulled-Down,
}

module _ {E : Type 0} (h : Hooks E) (mt : Matcher) (order : NewOrder) (prior : ℕ)
    (tame : Tame h) where
  module _ (m : RestingOrder) where
    fill_turn-Down :
        (fill : ℕ) (st : Sweep E)
        → Front h mt order prior tame m st
        → 0 < fill
        → fill ≤ m.leaves
        → fill ≤ st.leaves
        → Down h mt order prior tame
            (work h mt order prior tame st)
            (fill_turn h mt order prior m fill st)
    unfolding fill_turn
    fill_turn-Down fill st f p shown within =
        let printed : Run E = print_trade h mt order prior m fill st.run in
        let (book_printed, env_printed) = print_trade-quiet h mt order prior tame m fill st.run in
        let (book', done, filled) =
          fill_best-Filled (resting_side h mt order prior) fill m st.run.book f.well_formed f.best
            shown in
        let spent : Run E = spend_plan m.id fill (record printed { book = book' }) in
        let same : spent.book ≡ book' =
          book-spend_plan h mt order prior tame m.id fill (record printed { book = book' }) in
        let quiet : tame.pending spent.env ≤ tame.pending st.run.env =
          subst (λ e. tame.pending e ≤ tame.pending st.run.env)
            (sym (env-spend_plan h mt order prior tame m.id fill (record printed { book = book' })))
            env_printed in
        let (book_told, env_told) =
          report_fill-quiet h mt order prior tame m fill (st.leaves - fill) (st.filled + fill)
            spent in
        let there : (report_fill h mt order prior m fill (st.leaves - fill) (st.filled + fill)
              spent).book
            ≡ book' =
          book_told ∙ same in
        rw (book_printed, done, fill_turn)
          (
            subst WellFormed (sym there) filled.well_formed,
            omega (
              arith,
              filled.no_more,
              ap size there,
              quiet,
              env_told,
              spent_leaves tame.cost fill st.leaves p within,
            ),
          )

    hold_turn-Down :
        (look : E → RestingOrder → ℕ → NewOrder → ℕ → E) (held : ℕ) (st : Sweep E)
        → Front h mt order prior tame m st
        → 0 < held
        → held ≤ m.leaves
        → held ≤ st.leaves
        → h.last_look ≡ some look
        → Down h mt order prior tame
            (work h mt order prior tame st)
            (hold_turn h mt order prior look m held st)
    unfolding hold_turn
    hold_turn-Down look held st f p shown within set =
        let (book', done, filled) =
          fill_best-Filled (resting_side h mt order prior) held m st.run.book f.well_formed f.best
            shown in
        rw (done, hold_turn)
          (
            filled.well_formed,
            omega (
              arith,
              filled.no_more,
              spent_leaves tame.cost held st.leaves p within,
              tame.opens look set st.run.env m held order (prior + st.filled),
            ),
          )

    take_turn-Down :
        (allowed : ℕ) (st : Sweep E)
        → Front h mt order prior tame m st
        → 0 < allowed
        → allowed ≤ m.leaves
        → allowed ≤ st.leaves
        → Down h mt order prior tame
            (work h mt order prior tame st)
            (take_turn h mt order prior m allowed st)
    unfolding take_turn
    take_turn-Down allowed st f p shown within =
        if-split (Down h mt order prior tame (work h mt order prior tame st))
          (ltb st.leaves allowed) (λ e. ground arith) (λ e. take_with-Down h.last_look refl)
      where
        take_with-Down :
            (look : Option (E → RestingOrder → ℕ → NewOrder → ℕ → E))
            → h.last_look ≡ look
            → Down h mt order prior tame
                (work h mt order prior tame st)
                (take_with h mt order prior look m allowed st)
        take_with-Down none set = fill_turn-Down allowed st f p shown within
        take_with-Down (some look) set =
            if-split (Down h mt order prior tame (work h mt order prior tame st)) m.last_look
              (λ e. hold_turn-Down look allowed st f p shown within set)
              (λ e. fill_turn-Down allowed st f p shown within)

  -- The quantity of a limit, if there is one.
  abbrev qty_or : ℕ → Option FillLimit → ℕ
  qty_or want none = want
  qty_or want (some l) = l.qty

  module _ (m : RestingOrder) where
    blocked_turn-Down :
        (reason : CancelReason) (st : Sweep E)
        → Front h mt order prior tame m st
        → Down h mt order prior tame
            (work h mt order prior tame st)
            (blocked_turn h mt order prior m reason st)
    unfolding blocked_turn
    blocked_turn-Down reason st f =
        let r : Run E = (resolve_holds h m.id st.run).1 in
        if-split
          (λ (q : Run E).
            Down h mt order prior tame (work h mt order prior tame st)
              (again (record st { run = q })))
          (resolve_holds h m.id st.run).0
          (λ e. resolved-Down h mt order prior tame m.id st f.well_formed e)
          (λ e.
            let (still, le) = held-Front h mt order prior tame m.id m st f e in
            Down-mono h mt order prior tame (work h mt order prior tame (record st { run = r }))
              (work h mt order prior tame st)
              (again (record st { run = pull_maker h mt order reason m r })) le
              (pulled-Down h mt order prior tame m reason st.leaves (record st { run = r }) still
                (omega arith)))

    limited_turn-Down :
        (want : ℕ) (lim : Option FillLimit) (st : Sweep E)
        → Front h mt order prior tame m st
        → 0 < want
        → want ≤ m.leaves
        → want ≤ st.leaves
        → qty_or want lim ≤ want
        → Down h mt order prior tame
            (work h mt order prior tame st)
            (limited_turn h mt order prior m want lim st)
    unfolding limited_turn
    limited_turn-Down want none st f p shown within bound =
        take_turn-Down m want st f p shown within
    limited_turn-Down want (some lim) st f p shown within bound =
        if-split (Down h mt order prior tame (work h mt order prior tame st)) (lim.qty == 0)
          (λ e.
            if-split (Down h mt order prior tame (work h mt order prior tame st)) lim.maker_blocked
              (λ b. blocked_turn-Down lim.reason st f) (λ b. tt))
          (λ e.
            take_turn-Down m lim.qty st f (ground arith) (omega (arith, bound, shown))
              (omega (arith, bound, within)))

    live_bound :
        (x : Option (E → RestingOrder → NewOrder → ℕ → FillLimit)) (env : E) (want : ℕ)
        → h.fill_limit ≡ x
        → qty_or want (elim x [ none ↦ none | some f ↦ some (f env m order want) ]) ≤ want
    live_bound none env want e = omega arith
    live_bound (some f) env want e = tame.limited f e env m order want

    planned_bound : (want : ℕ) (r : Run E) → (planned_fill_limit h mt order m want r).0.qty ≤ want
    unfolding planned_fill_limit
    planned_bound want r = elim (Option-cases (planned_bite m.id r)) [
      | inl p ↦
          rw (p, planned_fill_limit)
            (live_or h.fill_limit (live_bound h.fill_limit r.env want refl))
      | inr (bite, p) ↦ rw (p, planned_fill_limit) (omega arith)
    ]
      where
        live_or :
            (x : Option (E → RestingOrder → NewOrder → ℕ → FillLimit))
            → qty_or want (elim x [ none ↦ none | some f ↦ some (f r.env m order want) ]) ≤ want
            → (elim (elim x as (λ y. Option FillLimit) [
              | none ↦ none
              | some f ↦ some (f r.env m order want)
            ])
                as (λ y. FillLimit) [ none ↦ unlimited want | some lim ↦ lim ]).qty
              ≤ want
        live_or none le = omega arith
        live_or (some f) le = le

    bite_limit-book : (want : ℕ) (r : Run E) → (bite_limit h mt order m want r).1.book ≡ r.book
    unfolding bite_limit
    bite_limit-book want r =
        if-split {A = Option FillLimit × Run E} (λ x. x.1.book ≡ r.book) r.plan_active
          (λ e. elim (Option-cases (planned_bite m.id r)) [
            | inl p ↦ rw (p, planned_fill_limit) refl
            | inr (bite, p) ↦ rw (p, planned_fill_limit) refl
          ])
          (λ e. refl)

    bite_limit-env : (want : ℕ) (r : Run E) → (bite_limit h mt order m want r).1.env ≡ r.env
    unfolding bite_limit
    bite_limit-env want r =
        if-split {A = Option FillLimit × Run E} (λ x. x.1.env ≡ r.env) r.plan_active
          (λ e. elim (Option-cases (planned_bite m.id r)) [
            | inl p ↦ rw (p, planned_fill_limit) refl
            | inr (bite, p) ↦ rw (p, planned_fill_limit) refl
          ])
          (λ e. refl)

    bite_limit-bound :
        (want : ℕ) (r : Run E) → qty_or want (bite_limit h mt order m want r).0 ≤ want
    unfolding bite_limit
    bite_limit-bound want r =
        if-split {A = Option FillLimit × Run E} (λ x. qty_or want x.0 ≤ want) r.plan_active
          (λ e. planned_bound want r) (λ e. live_bound h.fill_limit r.env want refl)

    pub bite_turn-Down :
        (st : Sweep E)
        → Front h mt order prior tame m st
        → Down h mt order prior tame
            (work h mt order prior tame st)
            (bite_turn h mt order prior m st)
    unfolding bite_turn
    bite_turn-Down st f =
        let want = qmin st.leaves m.leaves in
        let (lim, r) = bite_limit h mt order m want st.run in
        if-split (Down h mt order prior tame (work h mt order prior tame st)) (want == 0) (λ e. tt)
          (λ e.
            Down-mono h mt order prior tame (work h mt order prior tame (record st { run = r }))
              (work h mt order prior tame st)
              (limited_turn h mt order prior m want lim (record st { run = r }))
              (omega (
                arith,
                ap size (bite_limit-book want st.run),
                ap tame.pending (bite_limit-env want st.run),
              ))
              (limited_turn-Down want lim (record st { run = r })
                (record {
                  well_formed = subst WellFormed (sym (bite_limit-book want st.run)) f.well_formed;
                  best =
                      ap (peek_best (resting_side h mt order prior)) (bite_limit-book want st.run)
                      ∙ f.best;
                })
                (ground arith) (ground arith) (ground arith) (bite_limit-bound want st.run)))
