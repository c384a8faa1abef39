-- ===== src/Matcher/ProRata.antt =====
-- venue/include/flox-venue/matcher.h: the loop of `crossProRata`, level by level.
pub mod Shares
use venue_core.Prelude.{
  ℕ, zero, suc, ◌+◌, ◌-◌, ◌*◌, ◌/◌, ◌==◌, ltb, min, Bool, true, false, not, Option, none, some,
  List, [], ◌∷◌, if◌then◌else◌, ◌||◌, ◌&&◌, sum_by,
}
use venue_core.Prelude.Int.{ℤ}
use venue_core.Types.{Side, RestingOrder, NewOrder, opposite}
use venue_core.Book.{Book, peek_best, best_level, consume_by_id}
use venue_core.Matcher.Types.{FillLimit, Hooks, Matcher, Run, crosses}
use venue_core.Matcher.Plan.{planned_bite, spend_plan, has_stp}
use venue_core.Matcher.Stp.{
  StpOutcome, not_applicable, re_peek, cancel_taker, apply_self_trade_prevention,
}
use venue_core.Matcher.Sweep.{
  Sweep, End, exhausted, stp_canceled, Turn, again, stops, faults, print_trade, report_fill,
}

-- The split of `want` over the allocable sizes: each its share rounded down.
unfoldable pub floor_shares : ℕ → ℕ → List ℕ → List ℕ
floor_shares want tot [] = []
floor_shares want tot (a ∷ sizes) = (want * a / tot) ∷ floor_shares want tot sizes

-- What rounding left over goes to the participants in order of arrival, as far as each has room.
unfoldable pub top_up : ℕ → List ℕ → List ℕ → List ℕ
top_up leftover (a ∷ sizes) (s ∷ ss) =
    (s + min (a - s) leftover) ∷ top_up (leftover - min (a - s) leftover) sizes ss
top_up leftover [] ss = ss
top_up leftover (a ∷ sizes) [] = []

abbrev pub sum : List ℕ → ℕ
sum = sum_by (λ n. n)

unfoldable pub allocate : ℕ → List ℕ → List ℕ
unfolding floor_shares top_up
allocate want sizes =
    let shares = floor_shares want (sum sizes) sizes in top_up (want - sum shares) sizes shares

module _ {E : Type 0} (h : Hooks E) (mt : Matcher) (order : NewOrder) (prior_cum_qty : ℕ) where
  -- Prevention over a level: the first participant that it concerns decides.
  unfoldable pub stp_pass : List RestingOrder → ℕ → Run E → StpOutcome × ℕ × Run E
  unfolding apply_self_trade_prevention
  stp_pass [] leaves r = (not_applicable, leaves, r)
  stp_pass (m ∷ ms) leaves r =
      let (outcome, leaves', r') = apply_self_trade_prevention h mt order m leaves r in
      elim outcome [
        | not_applicable ↦ stp_pass ms leaves' r'
        | re_peek ↦ (re_peek, leaves', r')
        | cancel_taker ↦ (cancel_taker, leaves', r')
      ]

  abbrev skip_risk : Run E → Run E
  skip_risk r = record r { skipped_risk_pro_rata = r.skipped_risk_pro_rata + 1 }

  -- The size that the plan left a participant, with the cursor that the lookup leaves.
  unfoldable pub planned_size : RestingOrder → Run E → ℕ × Run E
  unfolding planned_bite
  planned_size m r = elim (planned_bite m.id r) [
    | none ↦ (m.leaves, r)
    | some (at, bite) ↦ (min m.leaves bite.allowed_raw, record r { plan_cursor = at })
  ]

  -- The allocable size of one participant, and the room left to the aggressor.
  unfoldable pub allocable : RestingOrder → ℕ → Run E → ℕ × ℕ × Run E
  unfolding planned_size
  allocable m room r =
      if m.last_look
      then (0, room, record r { skipped_last_look_pro_rata = r.skipped_last_look_pro_rata + 1 })
      else if r.plan_active
      then (let (size, r') = planned_size m r in
          (size, room, if size == 0 then skip_risk r' else r'))
      else elim h.fill_limit [
        | none ↦ (m.leaves, room, r)
        | some f ↦
            let lim = f r.env m order m.leaves in
            let size = min m.leaves lim.maker_qty in
            (size, min room lim.taker_qty, if size == 0 then skip_risk r else r)
      ]

  unfoldable pub limits_pass : List RestingOrder → ℕ → Run E → List ℕ × ℕ × Run E
  unfolding allocable
  limits_pass [] room r = ([], room, r)
  limits_pass (m ∷ ms) room r =
      let (size, room', r') = allocable m room r in
      let (sizes, room'', r'') = limits_pass ms room' r' in (size ∷ sizes, room'', r'')

  -- One participant's fill, at the price of the level.
  unfoldable pub fill_participant : ℤ → RestingOrder → ℕ → Sweep E → Option (Sweep E)
  unfolding print_trade report_fill spend_plan
  fill_participant price m fill st =
      let maker : RestingOrder = record m { price = price } in
      let printed = print_trade h mt order prior_cum_qty maker fill st.run in
      if ltb st.leaves fill then none else elim (consume_by_id m.id fill printed.book) [
        | none ↦ none
        | some book' ↦
            let spent = spend_plan m.id fill (record printed { book = book' }) in
            some (record {
              leaves = st.leaves - fill;
              filled = st.filled + fill;
              run =
                  report_fill h mt order prior_cum_qty maker fill (st.leaves - fill)
                    (st.filled + fill) spent;
            })
      ]

  unfoldable pub fills_pass : ℤ → List RestingOrder → List ℕ → Sweep E → Option (Sweep E)
  unfolding fill_participant
  fills_pass price [] allocs st = some st
  fills_pass price (m ∷ ms) [] st = some st
  fills_pass price (m ∷ ms) (a ∷ allocs) st =
      let without = fills_pass price ms allocs st in
      let with_fill : Option (Sweep E) = elim (fill_participant price m a st) [
        | none ↦ none
        | some st' ↦ fills_pass price ms allocs st'
      ] in
      if a == 0 then without else with_fill

  -- The allocation of a level whose participants may all trade with the aggressor.
  unfoldable pub split_level : ℤ → List RestingOrder → Sweep E → Turn E
  unfolding limits_pass fills_pass allocate
  split_level price level st =
      let (sizes, room, r) = limits_pass level st.leaves st.run in
      let want = min room (sum sizes) in
      if sum sizes == 0 || room == 0
      then stops exhausted (record st { run = r })
      else elim (fills_pass price level (allocate want sizes) (record st { run = r })) [
        | none ↦ faults
        | some st' ↦ if ltb want (sum sizes) then stops exhausted st' else again st'
      ]

  unfoldable pub after_pass : ℤ → List RestingOrder → StpOutcome → Sweep E → Turn E
  unfolding split_level
  after_pass price level not_applicable st = split_level price level st
  after_pass price level re_peek st = again st
  after_pass price level cancel_taker st = stops stp_canceled st

  unfoldable pub level_turn : ℤ → List RestingOrder → Sweep E → Turn E
  unfolding after_pass stp_pass
  level_turn price [] st = stops exhausted st
  level_turn price (m ∷ ms) st =
      if has_stp order.stp
      then (let (outcome, leaves', r) = stp_pass (m ∷ ms) st.leaves st.run in
          after_pass price (m ∷ ms) outcome (record st { leaves = leaves'; run = r }))
      else split_level price (m ∷ ms) st

  unfoldable pub pro_rata_turn : Sweep E → Turn E
  unfolding level_turn
  pro_rata_turn st = elim (peek_best (opposite order.side) st.run.book) [
    | none ↦ stops exhausted st
    | some top ↦
        if crosses order.side order.price order.order_type top.price
        then level_turn top.price (best_level (opposite order.side) st.run.book) st
        else stops exhausted st
  ]

  unfoldable pub pro_rata_sweep : ℕ → Sweep E → Option (End × Sweep E)
  unfolding pro_rata_turn
  pro_rata_sweep zero st = none
  pro_rata_sweep (suc fuel) st =
      if st.leaves == 0 then some (exhausted, st) else elim (pro_rata_turn st) [
        | again st' ↦ pro_rata_sweep fuel st'
        | stops end st' ↦ some (end, st')
        | faults ↦ none
      ]
