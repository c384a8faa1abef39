-- ===== src/Matcher/Sound/Levels.antt =====
-- The turns of the pro-rata loop of venue/include/flox-venue/matcher.h against `Sound`.
use venue_core.Prelude.{
  ℕ, zero, suc, ◌-◌, ◌≤◌, ◌==◌, ltb, min, Bool, true, false, Option, none, some, List, [], ◌∷◌,
  if◌then◌else◌, ◌||◌, ◌≡◌, refl, All, arith, Bool-cases, if-split, Option-cases, inl, inr, subst,
  sym, ◌∙◌,
}
use venue_core.Prelude.Int.{ℤ}
use venue_core.Types.{RestingOrder, NewOrder, opposite}
use venue_core.Book.{peek_best, best_level, consume_by_id}
use venue_core.Matcher.Types.{Hooks, Matcher, Run, crosses}
use venue_core.Matcher.Plan.{own_scope, spend_plan, has_stp}
use venue_core.Matcher.Stp.{
  StpOutcome, not_applicable, re_peek, cancel_taker, apply_self_trade_prevention,
}
use venue_core.Matcher.Sweep.{Sweep, End, exhausted, Turn, again, stops, faults, print_trade}
use venue_core.Matcher.ProRata.{
  sum, allocate, stp_pass, allocable, limits_pass, fill_participant, fills_pass, split_level,
  after_pass, level_turn, pro_rata_turn, pro_rata_sweep,
}
use venue_core.Matcher.Sound.{
  Clean, Sound, OnTurn, OnSome, events-spend_plan, stp_foreign, stp-StpSound, StpKept, fill-Clean,
  decrements,
}

module _ {E : Type 0} (h : Hooks E) (mt : Matcher) (order : NewOrder) (prior : ℕ) where
  abbrev Kept : Turn E → Type 0
  Kept t = OnTurn (Sound h mt order) t

  abbrev Foreign : List RestingOrder → Type 0
  Foreign ms = All (λ m. own_scope mt order m ≡ false) ms

  -- A pass that ends with nothing to prevent found no participant of the aggressor's scope.
  abbrev PassKept : List RestingOrder → ℕ → ℕ → StpOutcome × ℕ × Run E → Type 0
  PassKept ms leaves n x =
      StpKept h mt order order.stp leaves n x × (x.0 ≡ not_applicable → Foreign ms)

  StpKept-trans :
      (leaves leaves' n : ℕ) (x : StpOutcome × ℕ × Run E)
      → leaves' ≤ leaves
      → (decrements order.stp ≡ false → leaves' ≡ leaves)
      → StpKept h mt order order.stp leaves' n x
      → StpKept h mt order order.stp leaves n x
  StpKept-trans leaves leaves' n x b e k = (k.0, omega (arith, k.1), λ d. k.2 d ∙ e d)

  stp_pass-PassKept :
      (ms : List RestingOrder) (leaves n : ℕ) (r : Run E)
      → Clean mt order n r.events
      → PassKept ms leaves n (stp_pass h mt order prior ms leaves r)
  unfolding stp_pass
  stp_pass-PassKept [] leaves n r c = ((c, omega arith, λ _. refl), λ _. tt)
  stp_pass-PassKept (m ∷ ms) leaves n r c =
      passed (apply_self_trade_prevention h mt order m leaves r).0
        (stp_foreign h mt order m leaves r) (stp_pass-PassKept ms after n next kept.0)
    where
      kept :
          StpKept h mt order order.stp leaves n (apply_self_trade_prevention h mt order m leaves r)
      kept = stp-StpSound h mt order m leaves n r c

      after : ℕ
      after = (apply_self_trade_prevention h mt order m leaves r).1

      next : Run E
      next = (apply_self_trade_prevention h mt order m leaves r).2

      passed :
          (o : StpOutcome)
          → (o ≡ not_applicable → own_scope mt order m ≡ false)
          → PassKept ms after n (stp_pass h mt order prior ms after next)
          → PassKept (m ∷ ms) leaves n (elim o [
            | not_applicable ↦ stp_pass h mt order prior ms after next
            | re_peek ↦ (re_peek, after, next)
            | cancel_taker ↦ (cancel_taker, after, next)
          ])
      passed not_applicable f rest = (
        StpKept-trans leaves after n (stp_pass h mt order prior ms after next) kept.1 kept.2 rest.0,
        λ e. (f refl, rest.1 e),
      )
      passed re_peek f rest = (kept, λ e. cc)
      passed cancel_taker f rest = (kept, λ e. cc)

  events-allocable :
      (m : RestingOrder) (room : ℕ) (r : Run E)
      → (allocable h mt order prior m room r).2.events ≡ r.events
  unfolding allocable
  events-allocable m room r = ground arith

  events-limits_pass :
      (ms : List RestingOrder) (room : ℕ) (r : Run E)
      → (limits_pass h mt order prior ms room r).2.events ≡ r.events
  unfolding limits_pass
  events-limits_pass [] room r = refl
  events-limits_pass (m ∷ ms) room r =
      events-limits_pass ms (allocable h mt order prior m room r).1
        (allocable h mt order prior m room r).2
      ∙ events-allocable m room r

  module _ (price : ℤ) (near : crosses order.side order.price order.order_type price ≡ true) where
    fill_participant-Kept :
        (m : RestingOrder) (fill : ℕ) (st : Sweep E)
        → own_scope mt order m ≡ false
        → Sound h mt order st
        → OnSome (Sound h mt order) (fill_participant h mt order prior price m fill st)
    unfolding fill_participant
    fill_participant-Kept m fill st foreign s =
        if-split (OnSome (Sound h mt order)) (ltb st.leaves fill) (λ b. tt)
          (λ b. elim (Option-cases (consume_by_id m.id fill printed.book)) [
            | inl e ↦ rw e tt
            | inr (book', e) ↦ rw e (record {
              clean =
                  fill-Clean h mt order prior maker fill (st.leaves - fill) st.filled st.run
                    (spend_plan m.id fill (record printed { book = book' })) near foreign s.clean
                    (events-spend_plan h mt order m.id fill (record printed { book = book' }));
              within = ground (arith, s.within);
              exact = λ l d. ground (arith, s.exact l d);
            })
          ])
      where
        maker : RestingOrder
        maker = record m { price = price }

        printed : Run E
        printed = print_trade h mt order prior maker fill st.run

    fills_pass-Kept :
        (ms : List RestingOrder) (allocs : List ℕ) (st : Sweep E)
        → Foreign ms
        → Sound h mt order st
        → OnSome (Sound h mt order) (fills_pass h mt order prior price ms allocs st)
    unfolding fills_pass
    fills_pass-Kept [] allocs st f s = s
    fills_pass-Kept (m ∷ ms) [] st f s = s
    fills_pass-Kept (m ∷ ms) (a ∷ allocs) st f s =
        if-split (OnSome (Sound h mt order)) (a == 0) (λ z. fills_pass-Kept ms allocs st f.1 s)
          (λ z.
            filled (fill_participant h mt order prior price m a st)
              (fill_participant-Kept m a st f.0 s) (λ st₁ s₁. fills_pass-Kept ms allocs st₁ f.1 s₁))
      where
        filled :
            (x : Option (Sweep E))
            → OnSome (Sound h mt order) x
            → ((st₁ : Sweep E)
                → Sound h mt order st₁
                → OnSome (Sound h mt order) (fills_pass h mt order prior price ms allocs st₁))
            → OnSome (Sound h mt order) (elim x [
              | none ↦ none
              | some st' ↦ fills_pass h mt order prior price ms allocs st'
            ])
        filled none k next = tt
        filled (some st₁) k next = next st₁ k

    after_fills :
        (b : Bool) (x : Option (Sweep E))
        → OnSome (Sound h mt order) x
        → Kept (elim x [ none ↦ faults | some st' ↦ if b then stops exhausted st' else again st' ])
    after_fills b none k = tt
    after_fills true (some st) k = k
    after_fills false (some st) k = k

    split_level-Kept :
        (level : List RestingOrder) (st : Sweep E)
        → Foreign level
        → Sound h mt order st
        → Kept (split_level h mt order prior price level st)
    unfolding split_level
    split_level-Kept level st f s =
        if-split Kept (sum sizes == 0 || room == 0) (λ z. limited)
          (λ z.
            after_fills (ltb (min room (sum sizes)) (sum sizes))
              (fills_pass h mt order prior price level (allocate (min room (sum sizes)) sizes)
                (record st { run = r }))
              (fills_pass-Kept level (allocate (min room (sum sizes)) sizes) (record st { run = r })
                f limited))
      where
        sizes : List ℕ
        sizes = (limits_pass h mt order prior level st.leaves st.run).0

        room : ℕ
        room = (limits_pass h mt order prior level st.leaves st.run).1

        r : Run E
        r = (limits_pass h mt order prior level st.leaves st.run).2

        limited : Sound h mt order (record st { run = r })
        limited = record {
          clean =
              subst (Clean mt order st.filled) (sym (events-limits_pass level st.leaves st.run))
                s.clean;
          within = s.within;
          exact = s.exact;
        }

    after_pass-Kept :
        (level : List RestingOrder) (outcome : StpOutcome) (st : Sweep E)
        → (outcome ≡ not_applicable → Foreign level)
        → Sound h mt order st
        → Kept (after_pass h mt order prior price level outcome st)
    unfolding after_pass
    after_pass-Kept level not_applicable st f s = split_level-Kept level st (f refl) s
    after_pass-Kept level re_peek st f s = s
    after_pass-Kept level cancel_taker st f s = s

    unscoped : (ms : List RestingOrder) → has_stp order.stp ≡ false → Foreign ms
    unscoped [] e = tt
    unscoped (m ∷ ms) e = (ground arith, unscoped ms e)

    level_turn-Kept :
        (level : List RestingOrder) (st : Sweep E)
        → Sound h mt order st
        → Kept (level_turn h mt order prior price level st)
    unfolding level_turn
    level_turn-Kept [] st s = s
    level_turn-Kept (m ∷ ms) st s =
        if-split Kept (has_stp order.stp)
          (λ e.
            after_pass-Kept (m ∷ ms) passed.0 (record st { leaves = passed.1; run = passed.2 })
              kept.1
              (record {
                clean = kept.0.0;
                within = omega (arith, kept.0.1, s.within);
                exact = λ l d. omega (arith, kept.0.2 d, s.exact l d);
              }))
          (λ e. split_level-Kept (m ∷ ms) st (unscoped (m ∷ ms) e) s)
      where
        passed : StpOutcome × ℕ × Run E
        passed = stp_pass h mt order prior (m ∷ ms) st.leaves st.run

        kept : PassKept (m ∷ ms) st.leaves st.filled passed
        kept = stp_pass-PassKept (m ∷ ms) st.leaves st.filled st.run s.clean

  pro_rata_turn-Kept :
      (st : Sweep E) → Sound h mt order st → Kept (pro_rata_turn h mt order prior st)
  unfolding pro_rata_turn
  pro_rata_turn-Kept st s = elim (Option-cases (peek_best (opposite order.side) st.run.book)) [
    | inl e ↦ rw (e, pro_rata_turn) s
    | inr (m, e) ↦
        rw (e, pro_rata_turn)
          (if-split Kept (crosses order.side order.price order.order_type m.price)
            (λ x. level_turn-Kept m.price x (best_level (opposite order.side) st.run.book) st s)
            (λ x. s))
  ]

  turned :
      (t : Turn E) (fuel : ℕ) {end : End} {st' : Sweep E}
      → ((st : Sweep E)
          → Sound h mt order st
          → pro_rata_sweep h mt order prior fuel st ≡ some (end, st')
          → Sound h mt order st')
      → Kept t
      → (elim t [
        | again st ↦ pro_rata_sweep h mt order prior fuel st
        | stops e st ↦ some (e, st)
        | faults ↦ none
      ])
        ≡ some (end, st')
      → Sound h mt order st'
  turned (again st) fuel next k e = next st k e
  turned (stops e' st) fuel next k e =
      subst (Sound h mt order) (let same : st ≡ _ = ground arith in same) k
  turned faults fuel next k e = cc

  -- The pro-rata loop keeps the invariant, however it ends.
  pub pro_rata_sweep-Sound :
      (fuel : ℕ) (st : Sweep E) {end : End} {st' : Sweep E}
      → Sound h mt order st
      → pro_rata_sweep h mt order prior fuel st ≡ some (end, st')
      → Sound h mt order st'
  unfolding pro_rata_sweep
  pro_rata_sweep-Sound zero st s e = cc
  pro_rata_sweep-Sound (suc fuel) st {end} {st'} s e = elim (Bool-cases (st.leaves == 0)) [
    | inl z ↦ subst (Sound h mt order) (let same : st ≡ st' = ground arith in same) s
    | inr z ↦
        turned (pro_rata_turn h mt order prior st) fuel
          (λ st₁ s₁ e₁. pro_rata_sweep-Sound fuel st₁ s₁ e₁) (pro_rata_turn-Kept st s) (rw z at e)
  ]
