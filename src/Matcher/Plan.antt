-- ===== src/Matcher/Plan.antt =====
-- venue/include/flox-venue/matcher.h: the all-or-none plan of a fill-or-kill order, made before
-- anything prints and spent bite by bite by the sweep.
use venue_core.Prelude.{
  ℕ, zero, suc, ◌+◌, ◌-◌, ◌%◌, ◌==◌, ltb, min, Bool, true, false, not, Option, none, some, List, [],
  ◌∷◌, ◌++◌, if◌then◌else◌, ◌||◌, ◌&&◌, length, get_elem?, set,
}
use venue_core.Prelude.Int.{ℤ, pos, ◌-ℤ◌}
use venue_core.Types.{Side, buy, sell, StpMode, CancelReason, RestingOrder, NewOrder}
use venue_core.Book.Levels.{total_of}
use venue_core.Book.{available_within_excl}
use venue_core.Matcher.Types.{
  FillLimit, PlannedBite, PositionDeltas, add_delta, Hooks, Matcher, stp_scope, Run,
}

abbrev pub has_stp : StpMode → Bool
has_stp StpMode.none = false
has_stp _ = true

abbrev pub is_set {ℓ} : {A : Type ℓ} → Option A → Bool
is_set none = false
is_set (some _) = true

-- The scan from the cursor, round the plan once; the bite's position, where the cursor goes.
unfoldable pub find_bite : List PlannedBite → ℕ → ℕ → ℕ → Option ℕ
find_bite plan maker at zero = none
find_bite plan maker at (suc rounds) = elim (get_elem? plan (at % length plan)) [
  | none ↦ none
  | some bite ↦
      if bite.maker == maker then some (at % length plan) else find_bite plan maker (at + 1) rounds
]

unfoldable pub planned_bite : {E : Type 0} → ℕ → Run E → Option (ℕ × PlannedBite)
unfolding find_bite
planned_bite maker r = elim (find_bite r.plan maker r.plan_cursor (length r.plan)) [
  | none ↦ none
  | some at ↦ elim (get_elem? r.plan at) [ none ↦ none | some bite ↦ some (at, bite) ]
]

-- `spendPlan` draws the allowance of a maker down.
unfoldable pub spend_plan : {E : Type 0} → ℕ → ℕ → Run E → Run E
unfolding planned_bite
spend_plan maker qty r = if not r.plan_active || qty == 0 then r else elim (planned_bite maker r) [
  | none ↦ r
  | some (at, bite) ↦ record r {
    plan =
        set r.plan at (record bite { allowed_raw = bite.allowed_raw - min qty bite.allowed_raw });
    plan_cursor = at;
  }
]

-- What the walk of the precheck accumulates.
pub record Measure : Type 0 where
  pub deltas : PositionDeltas
  pub bites : List PlannedBite
  pub planned : ℕ
  pub risk_constrained : Bool

abbrev signed : Side → ℕ → ℤ
signed buy q = pos q
signed sell q = pos 0 -ℤ pos q

-- `skipStp`: an order of the aggressor's own scope, where prevention is on.
abbrev pub own_scope : Matcher → NewOrder → RestingOrder → Bool
own_scope mt order m =
    has_stp order.stp && (stp_scope mt m.account_id == stp_scope mt order.account_id)

abbrev no_measure : Measure
no_measure = record { deltas = []; bites = []; planned = 0; risk_constrained = false }

abbrev pub unlimited : ℕ → FillLimit
unlimited want = record {
  qty = want;
  maker_qty = want;
  taker_qty = want;
  maker_blocked = false;
  taker_blocked = false;
  reason = CancelReason.reduce_only_not_reducing;
}

module _ {E : Type 0} (h : Hooks E) (mt : Matcher) (order : NewOrder) where
  -- The limits of one maker as the callback sees them, or its whole size without a callback.
  unfoldable pub bite_of : E → RestingOrder → PositionDeltas → PlannedBite
  bite_of env m deltas = elim h.fill_limit_dry [
    | none ↦ record {
      maker = m.id;
      allowed_raw = total_of m;
      blocked = false;
      reason = CancelReason.reduce_only_not_reducing;
    }
    | some f ↦
        let lim = f env m order (total_of m) deltas in
        record {
          maker = m.id;
          allowed_raw = min lim.qty (total_of m);
          blocked = lim.maker_blocked;
          reason = lim.reason;
        }
  ]

  -- The lambda `measure`: true leaves the order out of the depth.
  unfoldable pub measure : E → Measure → RestingOrder → Bool × Measure
  unfolding bite_of add_delta
  measure env st m =
      if (is_set h.last_look && m.last_look) || own_scope mt order m
      then (true, st)
      else let bite = bite_of env m st.deltas in
        (
          false,
          record {
            deltas =
                if ltb 0 bite.allowed_raw && ltb st.planned order.quantity
                then add_delta order.account_id (signed order.side bite.allowed_raw)
                    (add_delta m.account_id (signed m.side bite.allowed_raw) st.deltas)
                else st.deltas;
            bites = st.bites ++ (bite ∷ []);
            planned = st.planned + bite.allowed_raw;
            risk_constrained =
                st.risk_constrained
                || (is_set h.fill_limit_dry && ltb bite.allowed_raw (total_of m));
          },
        )

  -- `planFillOrKill`: whether the order may sweep, and the plan that the sweep will spend.
  unfoldable pub plan_fill_or_kill : Bool → Run E → Bool × Run E
  unfolding measure available_within_excl
  plan_fill_or_kill is_market r =
      let (firm, st) =
        available_within_excl (measure r.env) order.side order.price is_market no_measure r.book in
      let (with_last_look, _) =
        available_within_excl {S = Unit {0}} (λ u m. (own_scope mt order m, u)) order.side
          order.price is_market tt r.book in
      let counted : Run E = record r {
        plan = st.bites;
        plan_cursor = 0;
        fok_prechecks = r.fok_prechecks + 1;
        fok_risk_constrained =
            if st.risk_constrained then r.fok_risk_constrained + 1 else r.fok_risk_constrained;
      } in
      if ltb st.planned order.quantity || (is_set h.last_look && ltb firm with_last_look)
      then (false, record counted { fok_rejected = r.fok_rejected + 1 })
      else (true, record counted { plan_active = true })

  -- The live limits of a bite; none where the engine sets none.
  abbrev live_limit : E → RestingOrder → ℕ → Option FillLimit
  live_limit env m want = elim h.fill_limit [ none ↦ none | some f ↦ some (f env m order want) ]

  -- `plannedFillLimit`, with the cursor it leaves.
  unfoldable pub planned_fill_limit : RestingOrder → ℕ → Run E → FillLimit × Run E
  unfolding planned_bite
  planned_fill_limit m want r = elim (planned_bite m.id r) [
    | none ↦ (elim (live_limit r.env m want) [ none ↦ unlimited want | some lim ↦ lim ], r)
    | some (at, bite) ↦ (
      record {
        qty = min want bite.allowed_raw;
        maker_qty = min want bite.allowed_raw;
        taker_qty = want;
        maker_blocked = min want bite.allowed_raw == 0;
        taker_blocked = false;
        reason = bite.reason;
      },
      record r { plan_cursor = at },
    )
  ]

  -- The limit of a bite, if there is any: the plan's, or the engine's.
  unfoldable pub bite_limit : RestingOrder → ℕ → Run E → Option FillLimit × Run E
  unfolding planned_fill_limit
  bite_limit m want r =
      if r.plan_active
      then (let (lim, r') = planned_fill_limit m want r in (some lim, r'))
      else (live_limit r.env m want, r)
