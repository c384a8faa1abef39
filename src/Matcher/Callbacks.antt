-- ===== src/Matcher/Callbacks.antt =====
-- What the price-time loop of venue/include/flox-venue/matcher.h asks of its callbacks to end, and
-- the work that is left.
use native.Mathlib.Nat.{mul-le-mul_right}
use venue_core.Prelude.{
  Bool, ◌-◌, ◌*◌, suc, ℕ, ◌+◌, ◌≤◌, ◌<◌, ◌==◌, not, ◌||◌, true, false, some, ◌≡◌, refl, sym, ◌∙◌,
  ap, subst, arith, Option-cases, inl, inr, if-split,
}
use venue_core.Types.{Event, CancelReason, RestingOrder, NewOrder}
use venue_core.Book.Invariant.{WellFormed}
use venue_core.Book.Operations.{cancel-WellFormed}
use venue_core.Book.Fills.{size}
use venue_core.Book.Best.{cancel_best-size}
use venue_core.Book.{Book, peek_best}
use venue_core.Matcher.Types.{FillLimit, Hooks, Matcher, Run, resolve_holds}
use venue_core.Matcher.Plan.{planned_bite, spend_plan}
use venue_core.Matcher.Stp.{pull_maker}
use venue_core.Matcher.Sweep.{
  Sweep, Turn, again, stops, faults, resting_side, report_fill, print_trade,
}

-- What termination asks of the callbacks. `pending` bounds how many turns and orders the holds that
-- are open can still give back to the loop, and a new hold adds at most `cost`: the hold callback
-- answers yes only if it resolved some, and then less is pending by more than the orders that it put
-- back; it answers no only if it left the book alone. Neither the sink nor the trade ids open holds,
-- and a limit allows no more than it is asked for.
pub record Tame {E : Type 0} (h : Hooks E) : Type 0 where
  pub pending : E → ℕ
  pub cost : ℕ
  pub told : (e : E) (x : Event) → pending (h.sink e x) ≤ pending e
  pub numbered : (e : E) → pending (h.next_trade_id e).1 ≤ pending e
  pub opens :
      (f : E → RestingOrder → ℕ → NewOrder → ℕ → E)
      → h.last_look ≡ some f
      → (e : E) (m : RestingOrder) (held : ℕ) (o : NewOrder) (cum : ℕ)
      → pending (f e m held o cum) ≤ pending e + cost
  pub resolves :
      (f : E → Book → ℕ → Bool × E × Book)
      → h.resting_holds ≡ some f
      → (e : E) (b : Book) (id : ℕ) → WellFormed b
      → ((f e b id).0 ≡ true
          → WellFormed (f e b id).2
            × (size (f e b id).2 + pending (f e b id).1 < size b + pending e))
        × ((f e b id).0 ≡ false → ((f e b id).2 ≡ b) × (pending (f e b id).1 ≤ pending e))
  pub limited :
      (f : E → RestingOrder → NewOrder → ℕ → FillLimit)
      → h.fill_limit ≡ some f
      → (e : E) (m : RestingOrder) (o : NewOrder) (want : ℕ) → (f e m o want).qty ≤ want

-- Each unit that is taken pays for the hold that it may open.
pub spent_leaves :
    (c taken leaves : ℕ)
    → 0 < taken
    → taken ≤ leaves
    → (leaves - taken) * suc c + suc c ≤ leaves * suc c
spent_leaves c taken leaves p le =
    let less : leaves - taken + 1 ≤ leaves = omega (arith, p, le) in
    let scaled : (leaves - taken + 1) * suc c ≤ leaves * suc c = mul-le-mul_right (suc c) less in
    omega (arith, scaled)

module _ {E : Type 0} (h : Hooks E) (mt : Matcher) (order : NewOrder) (prior : ℕ)
    (tame : Tame h) where
  -- What the order wants, how many orders rest, and what the open holds can give back.
  abbrev pub work : Sweep E → ℕ
  work st = st.leaves * suc tame.cost + size st.run.book + tame.pending st.run.env

  -- A turn that does not leave the loop keeps the book well-formed and lowers the work.
  abbrev pub Down : ℕ → Turn E → Type 0
  Down n (again st) = WellFormed st.run.book × (work st < n)
  Down n (stops end st) = Unit
  Down n faults = ⊥

  pub book-spend_plan : (id qty : ℕ) (r : Run E) → (spend_plan id qty r).book ≡ r.book
  unfolding spend_plan
  book-spend_plan id qty r =
      if-split (λ (x : Run E). x.book ≡ r.book) (not r.plan_active || qty == 0) (λ e. refl)
        (λ e. elim (Option-cases (planned_bite id r)) [
          | inl p ↦ rw p refl
          | inr (bite, p) ↦ rw p refl
        ])

  pub env-spend_plan : (id qty : ℕ) (r : Run E) → (spend_plan id qty r).env ≡ r.env
  unfolding spend_plan
  env-spend_plan id qty r =
      if-split (λ (x : Run E). x.env ≡ r.env) (not r.plan_active || qty == 0) (λ e. refl)
        (λ e. elim (Option-cases (planned_bite id r)) [
          | inl p ↦ rw p refl
          | inr (bite, p) ↦ rw p refl
        ])

  pub report_fill-quiet :
      (m : RestingOrder) (fill leaves filled : ℕ) (r : Run E)
      → ((report_fill h mt order prior m fill leaves filled r).book ≡ r.book)
        × (tame.pending (report_fill h mt order prior m fill leaves filled r).env
            ≤ tame.pending r.env)
  unfolding report_fill
  report_fill-quiet m fill leaves filled r = (refl, omega (arith, tame.told _ _, tame.told r.env _))

  pub print_trade-quiet :
      (m : RestingOrder) (fill : ℕ) (r : Run E)
      → ((print_trade h mt order prior m fill r).book ≡ r.book)
        × (tame.pending (print_trade h mt order prior m fill r).env ≤ tame.pending r.env)
  unfolding print_trade
  print_trade-quiet m fill r = (refl, omega (arith, tame.numbered r.env, tame.told _ _))

  -- The best maker of a well-formed book.
  pub record Front (m : RestingOrder) (st : Sweep E) : Type 0 where
    pub well_formed : WellFormed st.run.book
    pub best : peek_best (resting_side h mt order prior) st.run.book ≡ some m

  pub Down-mono : (n n' : ℕ) (t : Turn E) → n ≤ n' → Down n t → Down n' t
  Down-mono n n' (again st) le d = (d.0, omega (arith, le, d.1))
  Down-mono n n' (stops end st) le d = tt
  Down-mono n n' faults le d = d

  -- What the hold callback may have done, by its answer.
  abbrev pub Resolved : Run E → Bool × Run E → Type 0
  Resolved r (resolved, r') =
      (resolved ≡ true
        → WellFormed r'.book
          × (size r'.book + tame.pending r'.env < size r.book + tame.pending r.env))
      × (resolved ≡ false → (r'.book ≡ r.book) × (tame.pending r'.env ≤ tame.pending r.env))

  pub resolve_holds-Resolved :
      (id : ℕ) (r : Run E) → WellFormed r.book → Resolved r (resolve_holds h id r)
  unfolding resolve_holds
  resolve_holds-Resolved id r v = elim (Option-cases h.resting_holds) [
    | inl n ↦ rw (n, resolve_holds) ((λ e. absurd (ground (arith, e))), (λ e. (refl, omega arith)))
    | inr (f, e) ↦ rw (e, resolve_holds) (tame.resolves f e r.env r.book id v)
  ]

  -- Holds were resolved, and the loop looks again.
  pub resolved-Down :
      (id : ℕ) (st : Sweep E)
      → WellFormed st.run.book
      → (resolve_holds h id st.run).0 ≡ true
      → Down (work st) (again (record st { run = (resolve_holds h id st.run).1 }))
  resolved-Down id st v e =
      let (v', less) = (resolve_holds-Resolved id st.run v).0 e in (v', omega (arith, less))

  -- The best maker has no holds, and is the best maker still.
  pub held-Front :
      (id : ℕ) (m : RestingOrder) (st : Sweep E)
      → Front m st
      → (resolve_holds h id st.run).0 ≡ false
      → Front m (record st { run = (resolve_holds h id st.run).1 })
        × (work (record st { run = (resolve_holds h id st.run).1 }) ≤ work st)
  held-Front id m st f e =
      let (same, quiet) = (resolve_holds-Resolved id st.run f.well_formed).1 e in
      (
        record {
          well_formed = subst WellFormed (sym same) f.well_formed;
          best = ap (peek_best (resting_side h mt order prior)) same ∙ f.best;
        },
        omega (arith, ap size same, quiet),
      )

  -- A maker that is taken off the book.
  pub pulled-Down :
      (m : RestingOrder) (reason : CancelReason) (leaves : ℕ) (st : Sweep E)
      → Front m st
      → leaves ≤ st.leaves
      → Down
          (work st)
          (again (record st { leaves = leaves; run = pull_maker h mt order reason m st.run }))
  unfolding pull_maker
  pulled-Down m reason leaves st f le = (
    cancel-WellFormed m.id st.run.book f.well_formed,
    omega (
      arith,
      (let scaled : leaves * suc tame.cost ≤ st.leaves * suc tame.cost =
            mul-le-mul_right (suc tame.cost) le in
          scaled),
      tame.told st.run.env _,
      cancel_best-size (resting_side h mt order prior) m st.run.book f.well_formed f.best,
    ),
  )
