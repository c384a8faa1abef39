-- ===== src/Book/Levels.antt =====
-- venue/include/flox-venue/matching_book.h: one side of the book, the `std::map` of price levels.
use venue_core.Prelude.{
  ℕ, ◌+◌, ◌-◌, ◌==◌, ltb, Bool, if◌then◌else◌, Option, none, some, List, [], ◌∷◌, ◌++◌,
}
use venue_core.Prelude.Int.{ℤ, ltb_ℤ, eqb_ℤ}
use venue_core.Types.{Side, buy, sell, RestingOrder}

pub record Level : Type 0 where
  pub price : ℤ
  pub orders : List RestingOrder

-- The comparator of the map of a side: bids descending, asks ascending.
abbrev pub better : Side → ℤ → ℤ → Bool
better buy a b = ltb_ℤ b a
better sell a b = ltb_ℤ a b

-- `bids_[price]` creates the level in its place if it is missing; `push_back` appends.
unfoldable pub push_order : Side → ℤ → RestingOrder → List Level → List Level
push_order s p o [] = record { price = p; orders = o ∷ [] } ∷ []
push_order s p o (l ∷ ls) =
    if better s p l.price
    then record { price = p; orders = o ∷ [] } ∷ l ∷ ls
    else if better s l.price p
    then l ∷ push_order s p o ls
    else record l { orders = l.orders ++ (o ∷ []) } ∷ ls

unfoldable pub find_id : ℕ → List RestingOrder → Option RestingOrder
find_id id [] = none
find_id id (o ∷ os) = if o.id == id then some o else find_id id os

unfoldable pub update_id : ℕ → (RestingOrder → RestingOrder) → List RestingOrder → List RestingOrder
update_id id f [] = []
update_id id f (o ∷ os) = if o.id == id then f o ∷ os else o ∷ update_id id f os

unfoldable pub erase_id : ℕ → List RestingOrder → List RestingOrder
erase_id id [] = []
erase_id id (o ∷ os) = if o.id == id then os else o ∷ erase_id id os

-- The same at the level of a price.
unfoldable pub find_at : ℤ → ℕ → List Level → Option RestingOrder
find_at p id [] = none
find_at p id (l ∷ ls) = if eqb_ℤ l.price p then find_id id l.orders else find_at p id ls

unfoldable pub update_at : ℤ → ℕ → (RestingOrder → RestingOrder) → List Level → List Level
update_at p id f [] = []
update_at p id f (l ∷ ls) =
    if eqb_ℤ l.price p
    then record l { orders = update_id id f l.orders } ∷ ls
    else l ∷ update_at p id f ls

-- A level is put back unless nothing is left on it.
abbrev pub keep_level : ℤ → List RestingOrder → List Level → List Level
keep_level p [] ls = ls
keep_level p (o ∷ os) ls = record { price = p; orders = o ∷ os } ∷ ls

unfoldable pub erase_at : ℤ → ℕ → List Level → List Level
erase_at p id [] = []
erase_at p id (l ∷ ls) =
    if eqb_ℤ l.price p then keep_level l.price (erase_id id l.orders) ls else l ∷ erase_at p id ls

-- `splice` to the end of the list, with the order's new contents.
unfoldable pub requeue_at : ℤ → ℕ → RestingOrder → List Level → List Level
requeue_at p id o [] = []
requeue_at p id o (l ∷ ls) =
    if eqb_ℤ l.price p
    then record l { orders = erase_id id l.orders ++ (o ∷ []) } ∷ ls
    else l ∷ requeue_at p id o ls

-- What becomes of an order that is reduced by a fill: it stays in place, shows its next peak at
-- the tail, or leaves the book.
pub data Fate : Type 0 where
  stays : RestingOrder → Fate
  requeued : RestingOrder → Fate
  gone : Fate

abbrev pub qmin : ℕ → ℕ → ℕ
qmin a b = if ltb a b then a else b

unfoldable pub settle : RestingOrder → ℕ → Option Fate
settle o by =
    if ltb o.leaves by
    then none
    else if (o.leaves - by) == 0
    then (if o.hidden == 0
        then some gone
        else some (
            requeued (record o {
              leaves = qmin o.peak o.hidden;
              hidden = o.hidden - qmin o.peak o.hidden;
              cum_qty = o.cum_qty + by;
            })))
    else some (stays (record o { leaves = o.leaves - by; cum_qty = o.cum_qty + by }))

-- `fillFront`: the new levels, and the id to take out of the index.
unfoldable pub fill_orders : ℕ → ℤ → List RestingOrder → List Level → Option (List Level × Option ℕ)
fill_orders by p [] ls = none
fill_orders by p (head ∷ rest) ls = elim (settle head by) [
  | none ↦ none
  | some (stays o) ↦ some (record { price = p; orders = o ∷ rest } ∷ ls, none)
  | some (requeued o) ↦ some (record { price = p; orders = rest ++ (o ∷ []) } ∷ ls, none)
  | some gone ↦ some (keep_level p rest ls, some head.id)
]

unfoldable pub fill_front : ℕ → List Level → Option (List Level × Option ℕ)
unfolding fill_orders
fill_front by [] = none
fill_front by (l ∷ ls) = fill_orders by l.price l.orders ls

-- All orders of a side, best price first and oldest first within a price.
abbrev pub orders : List Level → List RestingOrder
orders [] = []
orders (l ∷ ls) = l.orders ++ orders ls

-- Displayed and hidden quantity.
abbrev pub total_of : RestingOrder → ℕ
total_of o = o.leaves + o.hidden

-- The oldest order at the best price.
abbrev pub front_order : List Level → Option RestingOrder
front_order [] = none
front_order (l ∷ ls) = elim l.orders [ [] ↦ none | o ∷ _ ↦ some o ]
