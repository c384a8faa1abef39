-- ===== src/Book.antt =====
-- venue/include/flox-venue/matching_book.h: the order-level resting book with price-time priority.
-- A `std::map` from prices to lists is a list of levels, best price first; the id index is a
-- function. An iterator of the index is the node of that id in the list at its price: ids on the
-- book are distinct (`Invariant.WellFormed`). A dangling iterator, the front of an empty map and
-- a fill above the displayed quantity, which the source leaves to its callers, are `none`.
pub mod Levels
pub mod Order
pub mod Edit
pub mod Weight
pub mod Lookup
pub mod Invariant
pub mod Preserve
pub mod Operations
pub mod Fills
pub mod Front
pub mod Best
pub mod Priority
pub mod Depth
pub mod History
pub mod Queue
pub mod Abstract
pub mod Image
pub mod Refinement
pub mod Simulation
use venue_core.Prelude.{
  ℕ, ◌+◌, ◌-◌, ◌==◌, ltb, min, Bool, true, false, not, ◌&&◌, ◌||◌, if◌then◌else◌, Option, none,
  some, List, [], ◌∷◌, ◌++◌, map, sum_by,
}
use venue_core.Prelude.Int.{ℤ}
use venue_core.Types.{Side, buy, sell, RestingOrder, BookAddResult, accepted, opposite}
use Levels.{
  Level, better, push_order, find_at, update_at, erase_at, requeue_at, Fate, stays, requeued, gone,
  settle, fill_front, orders, total_of, front_order,
}

-- `Loc`, less the iterator, which is found again by its id.
pub record Loc : Type 0 where
  pub side : Side
  pub price : ℤ

pub record Book : Type 0 where
  pub bids : List Level
  pub asks : List Level
  pub index : ℕ → Option Loc

abbrev pub empty_book : Book
empty_book = record { bids = []; asks = []; index = λ _. none }

abbrev pub levels_of : Side → Book → List Level
levels_of buy b = b.bids
levels_of sell b = b.asks

abbrev pub with_levels : Side → List Level → Book → Book
with_levels s ls b = record b {
  bids = elim s [ buy ↦ ls | sell ↦ b.bids ];
  asks = elim s [ buy ↦ b.asks | sell ↦ ls ];
}

abbrev pub index_insert : ℕ → Loc → Book → Book
index_insert id loc b = record b { index = λ j. if id == j then some loc else b.index j }

abbrev pub index_erase : ℕ → Book → Book
index_erase id b = record b { index = λ j. if id == j then none else b.index j }

unfoldable pub contains : ℕ → Book → Bool
contains id b = elim (b.index id) [ none ↦ false | some _ ↦ true ]

unfoldable pub empty : Book → Bool
empty b = elim b.bids [ [] ↦ elim b.asks [ [] ↦ true | _ ∷ _ ↦ false ] | _ ∷ _ ↦ false ]

unfoldable pub full : Book → Bool
full b = false

unfoldable pub can_rest : ℤ → Book → Bool
can_rest p b = true

unfoldable pub add_resting : Side → RestingOrder → Book → BookAddResult × Book
unfolding push_order
add_resting s o b = (
  accepted,
  index_insert o.id (record { side = s; price = o.price })
      (with_levels s (push_order s o.price (record o { side = s }) (levels_of s b)) b),
)

-- Dereferencing the iterator of a location.
abbrev pub deref : Loc → ℕ → Book → Option RestingOrder
deref loc id b = find_at loc.price id (levels_of loc.side b)

unfoldable pub find : ℕ → Book → Option RestingOrder
find id b = elim (b.index id) [ none ↦ none | some loc ↦ deref loc id b ]

-- A write through the iterator.
abbrev pub store : Loc → ℕ → (RestingOrder → RestingOrder) → Book → Book
store loc id f b = with_levels loc.side (update_at loc.price id f (levels_of loc.side b)) b

unfoldable pub reduce : ℕ → ℕ → Book → Bool × Book
reduce id new_leaves b = elim (b.index id) [
  | none ↦ (false, b)
  | some loc ↦ (true, store loc id (λ o. record o { leaves = new_leaves }) b)
]

abbrev pub reduced_total : ℕ → RestingOrder → RestingOrder
reduced_total new_total o =
    if ltb new_total o.leaves
    then record o { leaves = new_total; hidden = 0 }
    else record o { hidden = new_total - o.leaves }

unfoldable pub reduce_total : ℕ → ℕ → Book → Bool × Book
reduce_total id new_total b = elim (b.index id) [
  | none ↦ (false, b)
  | some loc ↦ (true, store loc id (reduced_total new_total) b)
]

-- What becomes of the book when the order at a location was reduced.
abbrev pub apply_fate : Loc → ℕ → Fate → Book → Book
apply_fate loc id (stays o) b = store loc id (λ _. o) b
apply_fate loc id (requeued o) b =
    with_levels loc.side (requeue_at loc.price id o (levels_of loc.side b)) b
apply_fate loc id gone b =
    index_erase id (with_levels loc.side (erase_at loc.price id (levels_of loc.side b)) b)

unfoldable pub consume_by_id : ℕ → ℕ → Book → Option Book
consume_by_id id by b = elim (b.index id) [
  | none ↦ some b
  | some loc ↦ elim (deref loc id b) [
    | none ↦ none
    | some o ↦ elim (settle o by) [ none ↦ none | some fate ↦ some (apply_fate loc id fate b) ]
  ]
]

unfoldable pub cancel : ℕ → Book → Option RestingOrder × Book
cancel id b = elim (b.index id) [
  | none ↦ (none, b)
  | some loc ↦ (deref loc id b, apply_fate loc id gone b)
]

-- `forEachOrder`: the orders that it visits, in its order.
unfoldable pub for_each_order : Book → List RestingOrder
for_each_order b = orders b.bids ++ orders b.asks

unfoldable pub levels : Side → Book → List (ℤ × ℕ)
levels s b = map (λ l. (l.price, sum_by total_of l.orders)) (levels_of s b)

unfoldable pub best_level : Side → Book → List RestingOrder
best_level s b = elim (levels_of s b) [ [] ↦ [] | l ∷ _ ↦ l.orders ]

unfoldable pub peek_best : Side → Book → Option RestingOrder
peek_best s b = front_order (levels_of s b)

-- `fillFront` on one side, with the id that leaves the index.
unfoldable pub fill_best : Side → ℕ → Book → Option Book
fill_best s by b = elim (fill_front by (levels_of s b)) [
  | none ↦ none
  | some (ls, none) ↦ some (with_levels s ls b)
  | some (ls, some id) ↦ some (index_erase id (with_levels s ls b))
]

unfoldable pub best_bid : Book → Option ℤ
best_bid b = elim b.bids [ [] ↦ none | l ∷ _ ↦ some l.price ]

unfoldable pub best_ask : Book → Option ℤ
best_ask b = elim b.asks [ [] ↦ none | l ∷ _ ↦ some l.price ]

-- The callback `skip` of the template may carry state, which goes through the walk.
module _ {ℓ} {S : Type ℓ} (skip : S → RestingOrder → Bool × S) where
  unfoldable pub scan_orders : S → List RestingOrder → ℕ × S
  scan_orders st [] = (0, st)
  scan_orders st (o ∷ os) =
      let (skipped, st') = skip st o in
      let (total, st'') = scan_orders st' os in
      (if skipped then total else total_of o + total, st'')

  unfoldable pub scan_levels : Side → ℤ → Bool → S → List Level → ℕ × S
  unfolding scan_orders
  scan_levels s limit is_market st [] = (0, st)
  scan_levels s limit is_market st (l ∷ ls) =
      let rest : ℕ × S =
        let (total, st') = scan_orders st l.orders in
        let (more, st'') = scan_levels s limit is_market st' ls in (total + more, st'') in
      if not is_market && better s limit l.price then (0, st) else rest

  unfoldable pub available_within_excl : Side → ℤ → Bool → S → Book → ℕ × S
  unfolding scan_levels
  available_within_excl taker_side limit is_market st b =
      scan_levels (opposite taker_side) limit is_market st (levels_of (opposite taker_side) b)

unfoldable pub available_within : Side → ℤ → Bool → Book → ℕ
unfolding available_within_excl
available_within taker_side limit is_market b =
    (available_within_excl {S = Unit {0}} (λ st _. (false, st)) taker_side limit is_market tt b).0
