-- ===== src/Stops.antt =====
-- The pending conditional orders, venue/include/flox-venue/stop_book.h.
-- The two multimaps are lists in their order, `up` ascending and `down` descending; the location
-- table is a function of the order id. Raw prices are integers without a bound. `none` around a
-- result of `pop_triggered` is the dereference of an end iterator.
pub mod Fire
pub mod Rank
pub mod Choice
pub mod Fires
pub mod Trailing
use venue_core.Prelude.{
  ℕ, zero, suc, ◌+◌, Bool, true, false, not, ◌&&◌, ◌||◌, Option, none, some, List, [], ◌∷◌, ◌++◌,
  is_empty, ltb, ◌==◌, if◌then◌else◌,
}
use venue_core.Prelude.Int.{ℤ, pos, ltb_ℤ, eqb_ℤ, ◌+ℤ◌, ◌-ℤ◌}
use venue_core.Types.{Side, OrderType, NewOrder}

abbrev pub is_conditional : OrderType → Bool
is_conditional OrderType.stop_market = true
is_conditional OrderType.stop_limit = true
is_conditional OrderType.take_profit_market = true
is_conditional OrderType.take_profit_limit = true
is_conditional OrderType.trailing_stop = true
is_conditional _ = false

abbrev pub is_limit_stop : OrderType → Bool
is_limit_stop OrderType.stop_limit = true
is_limit_stop OrderType.take_profit_limit = true
is_limit_stop _ = false

abbrev pub is_take_profit : OrderType → Bool
is_take_profit OrderType.take_profit_market = true
is_take_profit OrderType.take_profit_limit = true
is_take_profit _ = false

pub record Pending : Type 0 where
  pub order : NewOrder
  pub trigger : ℤ

pub data Container : Type 0 where
  up down trailing : Container

pub record Loc : Type 0 where
  pub container : Container
  pub trigger : ℤ
  pub account : ℕ
  pub client_order_id : ℕ
  pub quantity : ℕ

pub record StopBook : Type 0 where
  pub up : List (ℤ × Pending)
  pub down : List (ℤ × Pending)
  pub trailing : List Pending
  pub loc : ℕ → Option Loc

abbrev pub empty_stops : StopBook
empty_stops = record { up = []; down = []; trailing = []; loc = λ id. none }

abbrev pub empty : StopBook → Bool
empty b = is_empty b.up && is_empty b.down && is_empty b.trailing

abbrev pub contains : StopBook → ℕ → Bool
contains b id = elim (b.loc id) [ none ↦ false | some l ↦ true ]

abbrev pub account_of : StopBook → ℕ → ℕ
account_of b id = elim (b.loc id) [ none ↦ 0 | some l ↦ l.account ]

abbrev pub client_order_id_of : StopBook → ℕ → ℕ
client_order_id_of b id = elim (b.loc id) [ none ↦ 0 | some l ↦ l.client_order_id ]

abbrev pub quantity_of : StopBook → ℕ → ℕ
quantity_of b id = elim (b.loc id) [ none ↦ 0 | some l ↦ l.quantity ]

abbrev pub pendings : List (ℤ × Pending) → List Pending
pendings [] = []
pendings ((t, p) ∷ rest) = p ∷ pendings rest

-- The orders in the sequence in which the callback gets them.
abbrev pub for_each_pending : StopBook → List Pending
for_each_pending b = pendings b.up ++ pendings b.down ++ b.trailing

abbrev pub put_loc : (ℕ → Option Loc) → ℕ → Loc → ℕ → Option Loc
put_loc loc id l n = if n == id then some l else loc n

abbrev pub erase_loc : (ℕ → Option Loc) → ℕ → ℕ → Option Loc
erase_loc loc id n = if n == id then none else loc n

-- The order of the keys: ascending for `up`, descending for `down`.
abbrev pub before : Bool → ℤ → ℤ → Bool
before ascending a b = if ascending then ltb_ℤ a b else ltb_ℤ b a

-- A multimap puts a new entry behind those of its key.
unfoldable pub emplace : Bool → ℤ → Pending → List (ℤ × Pending) → List (ℤ × Pending)
emplace ascending k p [] = (k, p) ∷ []
emplace ascending k p ((j, q) ∷ rest) =
    let rest' = emplace ascending k p rest in
    if before ascending k j then (k, p) ∷ (j, q) ∷ rest else (j, q) ∷ rest'

-- The first entry with this id among those from `lower_bound` on that have the key, and the map
-- without it.
unfoldable pub take_equal : ℤ → ℕ → List (ℤ × Pending) → Option (Pending × List (ℤ × Pending))
take_equal t id [] = none
take_equal t id ((j, q) ∷ rest) =
    let found = take_equal t id rest in
    if not (eqb_ℤ j t)
    then none
    else if q.order.id == id
    then some (q, rest)
    else elim found [ none ↦ none | some (p, rest') ↦ some (p, (j, q) ∷ rest') ]

unfoldable pub take_from : Bool → ℤ → ℕ → List (ℤ × Pending) → Option (Pending × List (ℤ × Pending))
take_from ascending t id [] = none
take_from ascending t id ((j, q) ∷ rest) =
    let found = take_from ascending t id rest in
    if before ascending j t
    then elim found [ none ↦ none | some (p, rest') ↦ some (p, (j, q) ∷ rest') ]
    else take_equal t id ((j, q) ∷ rest)

unfoldable pub erase_from : Bool → ℤ → ℕ → List (ℤ × Pending) → List (ℤ × Pending)
erase_from ascending t id m = elim (take_from ascending t id m) [ none ↦ m | some (p, rest) ↦ rest ]

unfoldable pub erase_trailing : ℕ → List Pending → List Pending
erase_trailing id [] = []
erase_trailing id (p ∷ rest) =
    let rest' = erase_trailing id rest in if p.order.id == id then rest else p ∷ rest'

abbrev pub is_buy : Side → Bool
is_buy Side.buy = true
is_buy Side.sell = false

-- Up = fires when ref >= trigger.
abbrev pub goes_up : NewOrder → Bool
goes_up o = if is_buy o.side then not (is_take_profit o.order_type) else is_take_profit o.order_type

unfoldable pub add : NewOrder → ℤ → Bool → StopBook → StopBook
add o t is_trailing b =
    let p : Pending = record { order = o; trigger = t } in
    let at : Container → Loc = λ c. record {
      container = c;
      trigger = t;
      account = o.account_id;
      client_order_id = o.client_order_id;
      quantity = o.quantity;
    } in
    if is_trailing
    then record b {
      trailing = b.trailing ++ (p ∷ []);
      loc = put_loc b.loc o.id (at Container.trailing);
    }
    else if goes_up o
    then record b { up = emplace true t p b.up; loc = put_loc b.loc o.id (at Container.up) }
    else record b { down = emplace false t p b.down; loc = put_loc b.loc o.id (at Container.down) }

unfoldable pub cancel : ℕ → StopBook → Bool × StopBook
cancel id b = elim (b.loc id) [
  | none ↦ (false, b)
  | some l ↦
      let b' = record b { loc = erase_loc b.loc id } in
      elim l.container [
        | Container.up ↦ (true, record b' { up = erase_from true l.trigger id b.up })
        | Container.down ↦ (true, record b' { down = erase_from false l.trigger id b.down })
        | Container.trailing ↦ (true, record b' { trailing = erase_trailing id b.trailing })
      ]
]

-- One trailing stop's new trigger.
abbrev pub ratchet : ℤ → Pending → Pending
ratchet last s =
    let off = s.order.trailing_offset in
    if is_buy s.order.side
    then (let cand = last +ℤ off in
        if eqb_ℤ s.trigger (pos 0) || ltb_ℤ cand s.trigger then record s { trigger = cand } else s)
    else (let cand = last -ℤ off in
        if eqb_ℤ s.trigger (pos 0) || ltb_ℤ s.trigger cand then record s { trigger = cand } else s)

abbrev pub ratchet_all : ℤ → List Pending → List Pending
ratchet_all last [] = []
ratchet_all last (s ∷ rest) = ratchet last s ∷ ratchet_all last rest

unfoldable pub update_trailing : ℤ → StopBook → StopBook
update_trailing last b = record b { trailing = ratchet_all last b.trailing }
