-- ===== src/Matcher/Returns.antt =====
-- `cross` of venue/include/flox-venue/matcher.h by price-time priority, and its fuel.
use venue_core.Prelude.{
  ℕ, suc, ◌+◌, ◌*◌, ◌<◌, ap, ◌&&◌, false, Option, none, some, ◌≡◌, refl, sym, subst, arith,
  if-split,
}
use venue_core.Types.{MatchPolicy, NewOrder}
use venue_core.Book.Invariant.{WellFormed}
use venue_core.Book.Fills.{size}
use venue_core.Matcher.Types.{MatchOutcome, Hooks, Matcher, Run}
use venue_core.Matcher.Plan.{plan_fill_or_kill}
use venue_core.Matcher.Sweep.{Sweep, End, sweep}
use venue_core.Matcher.Cross.{cross, loop_of, finished, started, is_fok, is_market, top_crosses}
use venue_core.Matcher.Sound.Result.{plan-SameWorld}
use venue_core.Matcher.Callbacks.{Tame}
use venue_core.Matcher.Total.{sweep_returns}

module _ {E : Type 0} (h : Hooks E) (mt : Matcher) (order : NewOrder) (prior : ℕ)
    (tame : Tame h) where
  abbrev Returns : Option (MatchOutcome × Run E) → Type 0
  Returns r = (x : MatchOutcome × Run E) × (r ≡ some x)

  finished-Returns :
      (r : Option (End × Sweep E))
      → (x : End × Sweep E) × (r ≡ some x)
      → Returns (finished h mt order prior r)
  finished-Returns none x = ground arith
  finished-Returns (some (end, st)) x = (_, refl)

  loop-Returns :
      (fuel : ℕ) (r : Run E)
      → mt.policy ≡ MatchPolicy.price_time_fifo
      → WellFormed r.book
      → order.quantity * suc tame.cost + size r.book + tame.pending r.env < fuel
      → Returns (
          finished h mt order prior
            (loop_of h mt order prior mt.policy fuel (started h mt order prior r)))
  unfolding loop_of
  loop-Returns fuel r fifo v enough =
      subst
        (λ p. Returns (
          finished h mt order prior (loop_of h mt order prior p fuel (started h mt order prior r))))
        (sym fifo)
        (finished-Returns (sweep h mt order prior fuel (started h mt order prior r))
          (sweep_returns h mt order prior tame fuel (started h mt order prior r) v enough))

  -- Under price-time priority, from a well-formed book, with tame callbacks, a crossing returns an
  -- outcome as soon as its fuel exceeds the order's quantity, each unit counted once and once more
  -- for each turn that a hold opened on it may cost, plus the number of orders on the book, plus what
  -- the holds that are open can give back. Callbacks are tame if only last look opens holds, if the
  -- hold callback answers yes only when that lowers what the open holds can give back by more than
  -- the orders that it puts on the book, which it leaves well-formed, and no only when it leaves the
  -- book alone, and if a limit allows no more than asked.
  pub cross_returns :
      (fuel : ℕ) (r : Run E)
      → mt.policy ≡ MatchPolicy.price_time_fifo
      → WellFormed r.book
      → order.quantity * suc tame.cost + size r.book + tame.pending r.env < fuel
      → (x : MatchOutcome × Run E) × (cross h mt order prior fuel r ≡ some x)
  unfolding cross
  cross_returns fuel r₀ fifo v enough =
      let r : Run E = record r₀ { plan_active = false } in
      let planned : Run E = (plan_fill_or_kill h mt order (is_market order) r).1 in
      let same = plan-SameWorld h mt order prior (is_market order) r in
      if-split Returns (order.post_only && top_crosses h mt order prior r.book) (λ e. (_, refl))
        (λ e.
          if-split Returns (is_fok order)
            (λ f.
              if-split Returns (plan_fill_or_kill h mt order (is_market order) r).0
                (λ p.
                  loop-Returns fuel planned fifo (subst WellFormed (sym same.same_book) v)
                    (omega (arith, enough, ap size same.same_book, ap tame.pending same.same_env)))
                (λ p. (_, refl)))
            (λ f. loop-Returns fuel r fifo v enough))
