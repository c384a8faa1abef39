-- ===== src/Matcher/Sound/Result.antt =====
-- The two results of `cross` of venue/include/flox-venue/matcher.h: a refusal, and a sweep.
use venue_core.Prelude.{
  ℕ, Bool, false, Option, none, some, [], ◌&&◌, ◌≡◌, refl, arith, if-split, inl, inr, ◌⊎◌, subst,
  sym, ◌∙◌, ap,
}
use venue_core.Types.{RejectReason, MatchPolicy, NewOrder}
use venue_core.Matcher.Types.{MatchOutcome, no_outcome, Hooks, Matcher, Run}
use venue_core.Matcher.Plan.{plan_fill_or_kill}
use venue_core.Matcher.Sweep.{Sweep, End}
use venue_core.Matcher.Cross.{
  is_market, is_fok, residual, rejected, finished, top_crosses, loop_of, started, cross,
}
use venue_core.Matcher.Sound.{Clean, Sound}
use venue_core.Matcher.Sound.Fifo.{sweep-Sound}
use venue_core.Matcher.Sound.Levels.{pro_rata_sweep-Sound}

module _ {E : Type 0} (h : Hooks E) (mt : Matcher) (order : NewOrder) (prior : ℕ) where
  -- Nothing that a counterparty can see differs between two runs.
  pub record SameWorld (r r' : Run E) : Type 0 where
    pub same_book : r'.book ≡ r.book
    pub same_env : r'.env ≡ r.env
    pub same_events : r'.events ≡ r.events

  pub record Refused (r r' : Run E) (out : MatchOutcome) : Type 0 where
    pub untouched : SameWorld r r'
    pub nothing : (out.filled ≡ 0) × (out.leaves ≡ 0)
    pub why :
        (out.reject ≡ RejectReason.post_only_would_cross)
        ⊎ (out.reject ≡ RejectReason.fill_or_kill_unfulfillable)

  pub record Swept (fuel : ℕ) (r r' : Run E) (out : MatchOutcome) : Type 0 where
    pub from : Run E
    pub end : End
    pub last : Sweep E
    pub untouched : SameWorld r from
    pub ran :
        loop_of h mt order prior mt.policy fuel (started h mt order prior from) ≡ some (end, last)
    pub outcome :
        out ≡ residual order end (record no_outcome { filled = last.filled; leaves = last.leaves })
    pub run_is : r' ≡ last.run

  pub plan-SameWorld : (m : Bool) (r : Run E) → SameWorld r (plan_fill_or_kill h mt order m r).1
  unfolding plan_fill_or_kill
  plan-SameWorld m r = ground arith

  finished-Swept :
      (fuel : ℕ) (r from r' : Run E) (out : MatchOutcome) (x : Option (End × Sweep E))
      → SameWorld r from
      → loop_of h mt order prior mt.policy fuel (started h mt order prior from) ≡ x
      → finished h mt order prior x ≡ some (out, r')
      → Swept fuel r r' out
  finished-Swept fuel r from r' out none w e f = cc
  finished-Swept fuel r from r' out (some (end, st)) w e f = record {
    from = from;
    end = end;
    last = st;
    untouched = w;
    ran = e;
    outcome = ground arith;
    run_is = ground arith;
  }

  -- Every result of `cross` is a refusal before anything happened, or the end of a loop.
  pub cross_cases :
      (fuel : ℕ) (r : Run E) {out : MatchOutcome} {r' : Run E}
      → cross h mt order prior fuel r ≡ some (out, r')
      → Refused r r' out ⊎ Swept fuel r r' out
  unfolding cross
  cross_cases fuel r {out} {r'} e =
      if-split Result (order.post_only && top_crosses h mt order prior r.book)
        (λ t f. inl (refused r₀ RejectReason.post_only_would_cross start (inl refl) f))
        (λ t.
          if-split Result (is_fok order)
            (λ u.
              if-split Result (plan_fill_or_kill h mt order (is_market order) r₀).0
                (λ v f. inr (finished-Swept fuel r planned r' out _ plan refl f))
                (λ v f.
                  inl (refused planned RejectReason.fill_or_kill_unfulfillable plan (inr refl) f)))
            (λ u f. inr (finished-Swept fuel r r₀ r' out _ start refl f)))
        e
    where
      Result : Option (MatchOutcome × Run E) → Type 0
      Result x = x ≡ some (out, r') → Refused r r' out ⊎ Swept fuel r r' out

      r₀ : Run E
      r₀ = record r { plan_active = false }

      start : SameWorld r r₀
      start = record { same_book = refl; same_env = refl; same_events = refl }

      planned : Run E
      planned = (plan_fill_or_kill h mt order (is_market order) r₀).1

      plan : SameWorld r planned
      plan =
          let w : SameWorld r₀ planned = plan-SameWorld (is_market order) r₀ in
          record { same_book = w.same_book; same_env = w.same_env; same_events = w.same_events }

      refused :
          (from : Run E) (reason : RejectReason)
          → SameWorld r from
          → (reason ≡ RejectReason.post_only_would_cross)
            ⊎ (reason ≡ RejectReason.fill_or_kill_unfulfillable)
          → rejected h mt order prior reason from ≡ some (out, r')
          → Refused r r' out
      refused from reason w why f =
          let outcome : record no_outcome { reject = reason } ≡ out = ground arith in
          let run_is : from ≡ r' = ground arith in
          record {
            untouched = subst (SameWorld r) run_is w;
            nothing = (
              ap (λ (o : MatchOutcome). o.filled) (sym outcome),
              ap (λ (o : MatchOutcome). o.leaves) (sym outcome),
            );
            why =
                subst
                  (λ (o : MatchOutcome).
                    (o.reject ≡ RejectReason.post_only_would_cross)
                    ⊎ (o.reject ≡ RejectReason.fill_or_kill_unfulfillable))
                  outcome why;
          }

  loop-Sound :
      (policy : MatchPolicy) (fuel : ℕ) (st : Sweep E) {end : End} {st' : Sweep E}
      → Sound h mt order st
      → loop_of h mt order prior policy fuel st ≡ some (end, st')
      → Sound h mt order st'
  unfolding loop_of
  loop-Sound MatchPolicy.price_time_fifo fuel st s e = sweep-Sound h mt order prior fuel st s e
  loop-Sound MatchPolicy.pro_rata fuel st s e = pro_rata_sweep-Sound h mt order prior fuel st s e

  started-Sound :
      (r from : Run E)
      → SameWorld r from
      → r.events ≡ []
      → Sound h mt order (started h mt order prior from)
  started-Sound r from w e = record {
    clean =
        subst (Clean mt order 0) (sym (w.same_events ∙ e)) (record { fair = tt; adds_up = refl });
    within = omega arith;
    exact = λ _ _. omega arith;
  }

  pub Swept-Sound :
      (fuel : ℕ) (r : Run E) {out : MatchOutcome} {r' : Run E}
      → r.events ≡ []
      → (s : Swept fuel r r' out) → Sound h mt order s.last
  Swept-Sound fuel r e s =
      loop-Sound mt.policy fuel (started h mt order prior s.from)
        (started-Sound r s.from s.untouched e) s.ran

  pub residual-same :
      (end : End) (out : MatchOutcome)
      → ((residual order end out).filled ≡ out.filled)
        × ((residual order end out).leaves ≡ out.leaves)
        × ((residual order end out).reject ≡ out.reject)
  unfolding residual
  residual-same end out = ground arith
