-- ===== src/Matcher/Sound/Outcome.antt =====
-- What a caller of `cross` of venue/include/flox-venue/matcher.h sees of it.
use venue_core.Prelude.{
  ℕ, ◌+◌, ◌≤◌, ◌<◌, ◌==◌, true, false, some, [], ◌≡◌, ◌≢◌, refl, All, sum_by, arith, if-split, inl,
  inr, ◌⊎◌, subst, sym, ◌∙◌, ap,
}
use venue_core.Types.{RejectReason, TimeInForce, NewOrder}
use venue_core.Matcher.Types.{MatchOutcome, no_outcome, Hooks, Matcher, Run}
use venue_core.Matcher.Plan.{is_set}
use venue_core.Matcher.Sweep.{End, exhausted, stp_canceled, risk_blocked}
use venue_core.Matcher.Cross.{is_market, residual, residual_by_tif, cross}
use venue_core.Matcher.Sound.{FairEvent, traded_qty, Sound, decrements}
use venue_core.Matcher.Sound.Result.{SameWorld, Swept, cross_cases, Swept-Sound, residual-same}

-- How a remainder ends: it is gone, it rests, or it is killed, and never two of these. What rests
-- is a positive quantity of an order that is not a market, immediate-or-cancel or fill-or-kill one.
pub data Remainder (order : NewOrder) (out : MatchOutcome) : Type 0 where
  complete :
      out.taker_complete ≡ true
      → out.residual_rests ≡ false
      → out.residual_canceled ≡ false
      → out.leaves ≡ 0
      → Remainder order out
  rests :
      out.taker_complete ≡ false
      → out.residual_rests ≡ true
      → out.residual_canceled ≡ false
      → 0 < out.leaves
      → is_market order ≡ false
      → (order.tif ≢ TimeInForce.ioc) × (order.tif ≢ TimeInForce.fok)
      → Remainder order out
  killed :
      out.taker_complete ≡ false
      → out.residual_rests ≡ false
      → out.residual_canceled ≡ true
      → Remainder order out

abbrev unsettled : ℕ → ℕ → MatchOutcome
unsettled filled leaves = record no_outcome { filled = filled; leaves = leaves }

tif-Remainder :
    (order : NewOrder) (tif : TimeInForce) (filled leaves : ℕ)
    → order.tif ≡ tif
    → 0 < leaves
    → is_market order ≡ false
    → Remainder order (residual_by_tif tif (unsettled filled leaves))
unfolding residual_by_tif
tif-Remainder order TimeInForce.ioc f l e h m = killed refl refl refl
tif-Remainder order TimeInForce.fok f l e h m = killed refl refl refl
tif-Remainder order TimeInForce.gtc f l e h m = rests refl refl refl h m (λ k. cc, λ k. cc)
tif-Remainder order TimeInForce.gtd f l e h m = rests refl refl refl h m (λ k. cc, λ k. cc)
tif-Remainder order TimeInForce.post_only f l e h m = rests refl refl refl h m (λ k. cc, λ k. cc)

residual-Remainder :
    (order : NewOrder) (end : End) (filled leaves : ℕ)
    → Remainder order (residual order end (unsettled filled leaves))
unfolding residual
residual-Remainder order stp_canceled f l = killed refl refl refl
residual-Remainder order (risk_blocked reason) f l = killed refl refl refl
residual-Remainder order exhausted f l =
    if-split (Remainder order) (l == 0) (λ z. complete refl refl refl (ground arith))
      (λ z.
        if-split (Remainder order) (is_market order) (λ m. killed refl refl refl)
          (λ m. tif-Remainder order order.tif f l refl (ground arith) m))

module _ {E : Type 0} (h : Hooks E) (mt : Matcher) (order : NewOrder) (prior : ℕ) (fuel : ℕ)
    (r : Run E) {out : MatchOutcome} {r' : Run E} where
  -- Whatever the policy and the callbacks, every trade that a crossing prints from an empty event
  -- list is within the limit of the aggressor, names it as the taker, and has its two accounts in
  -- different scopes if the aggressor asked for self-trade prevention.
  pub cross-FairEvent :
      r.events ≡ []
      → cross h mt order prior fuel r ≡ some (out, r')
      → All (FairEvent mt order) r'.events
  cross-FairEvent e f = elim (cross_cases h mt order prior fuel r f) [
    | inl c ↦ subst (All (FairEvent mt order)) (sym (c.untouched.same_events ∙ e)) tt
    | inr s ↦
        subst (λ (x : Run E). All (FairEvent mt order) x.events) (sym s.run_is)
          (Swept-Sound h mt order prior fuel r e s).clean.fair
  ]

  made_up :
      cross h mt order prior fuel r ≡ some (out, r')
      → (s : Swept h mt order prior fuel r r' out)
      → (out.filled ≡ s.last.filled) × (out.leaves ≡ s.last.leaves)
  made_up f s =
      let same = residual-same h mt order prior s.end (unsettled s.last.filled s.last.leaves) in
      (
        ap (λ (o : MatchOutcome). o.filled) s.outcome ∙ same.0,
        ap (λ (o : MatchOutcome). o.leaves) s.outcome ∙ same.1,
      )

  -- The prints of a crossing from an empty event list add up to what it says was filled, and what
  -- it says was filled and what it says remains never exceed the order's quantity together.
  pub cross-accounts :
      r.events ≡ []
      → cross h mt order prior fuel r ≡ some (out, r')
      → (sum_by traded_qty r'.events ≡ out.filled) × (out.filled + out.leaves ≤ order.quantity)
  cross-accounts e f = elim (cross_cases h mt order prior fuel r f) [
    | inl c ↦
        (rw (c.untouched.same_events, e) (sym c.nothing.0), omega (arith, c.nothing.0, c.nothing.1))
    | inr s ↦
        let v : Sound h mt order s.last = Swept-Sound h mt order prior fuel r e s in
        let (fill, left) = made_up f s in
        (
          ap (λ (x : Run E). sum_by traded_qty x.events) s.run_is ∙ v.clean.adds_up ∙ sym fill,
          omega (arith, fill, left, v.within),
        )
  ]

  -- A crossing from an empty event list that is not refused, with no last-look callback set and
  -- an order that does not ask to be decremented, says of every unit of the order's quantity that
  -- it was filled or that it remains.
  pub cross-exact :
      r.events ≡ []
      → cross h mt order prior fuel r ≡ some (out, r')
      → out.reject ≡ RejectReason.none
      → is_set h.last_look ≡ false
      → decrements order.stp ≡ false
      → out.filled + out.leaves ≡ order.quantity
  cross-exact e f k l d = elim (cross_cases h mt order prior fuel r f) [
    | inl c ↦ ground (arith, c.why, k)
    | inr s ↦
        let v : Sound h mt order s.last = Swept-Sound h mt order prior fuel r e s in
        let (fill, left) = made_up f s in omega (arith, fill, left, v.exact l d)
  ]

  -- A refused order leaves the book, the engine and the events as they were, fills nothing, and is
  -- refused for one of two reasons; an order that is not refused has exactly one fate for its
  -- remainder.
  pub cross-Remainder :
      cross h mt order prior fuel r ≡ some (out, r')
      → (SameWorld h mt order prior r r'
          × (out.filled ≡ 0)
          × ((out.reject ≡ RejectReason.post_only_would_cross)
              ⊎ (out.reject ≡ RejectReason.fill_or_kill_unfulfillable)))
        ⊎ ((out.reject ≡ RejectReason.none) × Remainder order out)
  cross-Remainder f = elim (cross_cases h mt order prior fuel r f) [
    | inl c ↦ inl (c.untouched, c.nothing.0, c.why)
    | inr s ↦ inr (
      ap (λ (o : MatchOutcome). o.reject) s.outcome
          ∙ (residual-same h mt order prior s.end
              (record no_outcome { filled = s.last.filled; leaves = s.last.leaves })).2,
      subst (Remainder order) (sym s.outcome)
          (residual-Remainder order s.end s.last.filled s.last.leaves),
    )
  ]
