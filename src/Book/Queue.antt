-- ===== src/Book/Queue.antt =====
-- An abstract book: two lists of orders in the order of their priority, without levels and without
-- an index. What venue/include/flox-venue/matching_book.h promises, said over it.
use venue_core.Prelude.{ℕ, Option, none, some, List, [], ◌∷◌, if◌then◌else◌}
use venue_core.Types.{Side, buy, sell, RestingOrder}
use venue_core.Book.Levels.{
  better, Fate, stays, requeued, gone, settle, find_id, update_id, erase_id, orders,
}
use venue_core.Book.{
  Book, add_resting, reduce, reduce_total, reduced_total, consume_by_id, fill_best, cancel,
}

-- Behind every order that it does not beat.
unfoldable pub enqueue : Side → RestingOrder → List RestingOrder → List RestingOrder
enqueue s o [] = o ∷ []
enqueue s o (x ∷ os) = if better s o.price x.price then o ∷ x ∷ os else x ∷ enqueue s o os

unfoldable pub after_fate : Side → ℕ → Fate → List RestingOrder → List RestingOrder
unfolding enqueue
after_fate s id (stays o) os = update_id id (λ _. o) os
after_fate s id (requeued o) os = enqueue s o (erase_id id os)
after_fate s id gone os = erase_id id os

-- A fill of the order with an id, if the list has it.
unfoldable pub consume_in : Side → ℕ → ℕ → List RestingOrder → Option (List RestingOrder)
unfolding after_fate
consume_in s id by os = elim (find_id id os) [
  | none ↦ some os
  | some o ↦ elim (settle o by) [ none ↦ none | some fate ↦ some (after_fate s id fate os) ]
]

pub record Queues : Type 0 where
  pub bids : List RestingOrder
  pub asks : List RestingOrder

abbrev pub queue_of : Side → Queues → List RestingOrder
queue_of buy q = q.bids
queue_of sell q = q.asks

abbrev pub head : List RestingOrder → Option RestingOrder
head [] = none
head (o ∷ os) = some o

-- A call that changes the book.
pub data Call : Type 0 where
  adds : Side → RestingOrder → Call
  reduces : ℕ → ℕ → Call
  trims : ℕ → ℕ → Call
  consumes : ℕ → ℕ → Call
  fills : Side → ℕ → Call
  cancels : ℕ → Call

unfoldable pub call : Call → Book → Option Book
call (adds s o) b = some (add_resting s o b).1
call (reduces id n) b = some (reduce id n b).1
call (trims id n) b = some (reduce_total id n b).1
call (consumes id by) b = consume_by_id id by b
call (fills s by) b = fill_best s by b
call (cancels id) b = some (cancel id b).1

unfoldable pub consume_queues : ℕ → ℕ → Queues → Option Queues
unfolding consume_in
consume_queues id by q = elim (consume_in buy id by q.bids) [
  | none ↦ none
  | some bids ↦ elim (consume_in sell id by q.asks) [
    | none ↦ none
    | some asks ↦ some (record { bids = bids; asks = asks })
  ]
]

-- The same call on the abstract book.
unfoldable pub queue_call : Call → Queues → Option Queues
unfolding enqueue consume_queues
queue_call (adds buy o) q = some (record q { bids = enqueue buy (record o { side = buy }) q.bids })
queue_call (adds sell o) q =
    some (record q { asks = enqueue sell (record o { side = sell }) q.asks })
queue_call (reduces id n) q = some (record {
  bids = update_id id (λ o. record o { leaves = n }) q.bids;
  asks = update_id id (λ o. record o { leaves = n }) q.asks;
})
queue_call (trims id n) q = some (record {
  bids = update_id id (reduced_total n) q.bids;
  asks = update_id id (reduced_total n) q.asks;
})
queue_call (consumes id by) q = consume_queues id by q
queue_call (fills s by) q = elim (head (queue_of s q)) [
  | none ↦ none
  | some o ↦ consume_queues o.id by q
]
queue_call (cancels id) q = some (record { bids = erase_id id q.bids; asks = erase_id id q.asks })

abbrev pub queues : Book → Queues
queues b = record { bids = orders b.bids; asks = orders b.asks }
