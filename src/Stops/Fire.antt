-- ===== src/Stops/Fire.antt =====
-- The choice of the triggered stop to fire and its removal, StopBook::popTriggered.
use venue_core.Prelude.{
  ℕ, zero, suc, ◌+◌, Bool, true, false, not, ◌&&◌, ◌||◌, Option, none, some, List, [], ◌∷◌,
  get_elem?, ltb, if◌then◌else◌,
}
use venue_core.Prelude.Int.{ℤ, pos, ltb_ℤ, eqb_ℤ, ◌-ℤ◌}
use venue_core.Types.{OrderType, NewOrder}
use venue_core.Stops.{Pending, Container, StopBook, is_limit_stop, is_buy, take_from, erase_loc}

-- The best triggered stop so far: bestDist, bestId, bestC, bestTrig and trailIdx.
pub record Candidate : Type 0 where
  pub container : Container
  pub trigger : ℤ
  pub id : ℕ
  pub dist : ℤ
  pub index : ℕ

unfoldable pub consider : Option Candidate → Candidate → Option Candidate
consider none c = some c
consider (some best) c =
    if ltb_ℤ best.dist c.dist || (eqb_ℤ c.dist best.dist && ltb c.id best.id)
    then some c
    else some best

-- The lowest id among the entries with the key, from the first on.
unfoldable pub lowest_id : ℤ → ℕ → List (ℤ × Pending) → ℕ
lowest_id t id [] = id
lowest_id t id ((j, q) ∷ rest) =
    let rest' = lowest_id t (if ltb q.order.id id then q.order.id else id) rest in
    if eqb_ℤ j t then rest' else id

abbrev pub fires_trailing : ℤ → Pending → Bool
fires_trailing ref s =
    if is_buy s.order.side then not (ltb_ℤ ref s.trigger) else not (ltb_ℤ s.trigger ref)

abbrev pub trailing_dist : ℤ → Pending → ℤ
trailing_dist ref s = if is_buy s.order.side then ref -ℤ s.trigger else s.trigger -ℤ ref

unfoldable pub consider_up : ℤ → List (ℤ × Pending) → Option Candidate → Option Candidate
consider_up ref [] best = best
consider_up ref ((t, p) ∷ rest) best =
    if not (ltb_ℤ ref t)
    then consider best (record {
      container = Container.up;
      trigger = t;
      id = lowest_id t p.order.id rest;
      dist = ref -ℤ t;
      index = 0;
    })
    else best

unfoldable pub consider_down : ℤ → List (ℤ × Pending) → Option Candidate → Option Candidate
consider_down ref [] best = best
consider_down ref ((t, p) ∷ rest) best =
    if not (ltb_ℤ t ref)
    then consider best (record {
      container = Container.down;
      trigger = t;
      id = lowest_id t p.order.id rest;
      dist = t -ℤ ref;
      index = 0;
    })
    else best

unfoldable pub consider_trailing : ℤ → ℕ → List Pending → Option Candidate → Option Candidate
consider_trailing ref i [] best = best
consider_trailing ref i (s ∷ rest) best =
    let best' =
      if eqb_ℤ s.trigger (pos 0)
      then best
      else if not (fires_trailing ref s)
      then best
      else consider best (record {
        container = Container.trailing;
        trigger = s.trigger;
        id = s.order.id;
        dist = trailing_dist ref s;
        index = i;
      }) in
    consider_trailing ref (i + 1) rest best'

unfoldable pub choose : ℤ → StopBook → Option Candidate
choose ref b =
    consider_trailing ref 0 b.trailing (consider_down ref b.down (consider_up ref b.up none))

abbrev pub to_aggressor : Pending → NewOrder
to_aggressor s = record (s.order) {
  order_type = (if is_limit_stop s.order.order_type then OrderType.limit else OrderType.market);
  visible_quantity = 0;
}

abbrev pub erase_at : ℕ → List Pending → List Pending
erase_at i [] = []
erase_at zero (p ∷ rest) = rest
erase_at (suc i) (p ∷ rest) = p ∷ erase_at i rest

-- The candidate's order and the book without it; `none` if it is not where it was seen.
unfoldable pub take_candidate : Candidate → StopBook → Option (Pending × StopBook)
take_candidate c b = elim c.container [
  | Container.trailing ↦ elim (get_elem? b.trailing c.index) [
    | none ↦ none
    | some p ↦ some (p, record b { trailing = erase_at c.index b.trailing })
  ]
  | Container.up ↦ elim (take_from true c.trigger c.id b.up) [
    | none ↦ none
    | some (p, rest) ↦ some (p, record b { up = rest })
  ]
  | Container.down ↦ elim (take_from false c.trigger c.id b.down) [
    | none ↦ none
    | some (p, rest) ↦ some (p, record b { down = rest })
  ]
]

unfoldable pub pop_triggered : ℤ → StopBook → Option (Option NewOrder × StopBook)
unfolding choose take_candidate
pop_triggered ref b = elim (choose ref b) [
  | none ↦ some (none, b)
  | some c ↦ elim (take_candidate c b) [
    | none ↦ none
    | some (p, b') ↦ some (some (to_aggressor p), record b' { loc = erase_loc b.loc c.id })
  ]
]
