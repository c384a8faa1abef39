-- ===== src/Book/Image.antt =====
-- The edits of venue/include/flox-venue/matching_book.h beside those of the abstract book.
use venue_core.Prelude.{
  ℕ, ◌≡◌, refl, sym, ap, ap₂, subst, ◌∙◌, none, some, List, Option-cases, inl, inr, arith,
}
use venue_core.Prelude.Int.{ℤ}
use venue_core.Types.{Side, buy, sell, opposite, RestingOrder}
use venue_core.Book.Order.{Ordered}
use venue_core.Book.Levels.{
  Level, requeue_at, orders, Fate, stays, requeued, gone, find_id, update_id, erase_id, find_at,
}
use venue_core.Book.Weight.{holds, count_id}
use venue_core.Book.Lookup.{find_at-count}
use venue_core.Book.Invariant.{tally, Located, WellFormed}
use venue_core.Book.Preserve.{Found, located-Found}
use venue_core.Book.Operations.{FateOk}
use venue_core.Book.Abstract.{
  erase_id-absent, find_id-absent, update_id-absent, orders-find_at, orders-update_at,
  orders-erase_at, orders-requeue_at,
}
use venue_core.Book.Queue.{
  Queues, queues, after_fate, consume_in, reduces, trims, queue_call, enqueue,
}
use venue_core.Book.{
  Book, Loc, levels_of, store, apply_fate, reduce, reduce_total, reduced_total, cancel,
}

abbrev pub both : List RestingOrder → List RestingOrder → Queues
both bids asks = record { bids = bids; asks = asks }

-- The queues after a change of the queue of one side.
abbrev pub on_side : Side → List RestingOrder → Queues → Queues
on_side buy os q = record q { bids = os }
on_side sell os q = record q { asks = os }

-- Where an order is found there is one of its id, and none on the other side.
count-here :
    (s : Side) (p : ℤ) (id : ℕ) (o : RestingOrder) (b : Book)
    → Found id (record { side = s; price = p }) o b
    → count_id id (orders (levels_of s b)) ≡ 1
count-here buy p id o b f = omega (arith, f.alone, find_at-count p id o b.bids f.at_loc)
count-here sell p id o b f = omega (arith, f.alone, find_at-count p id o b.asks f.at_loc)

-- The queues when the index knows nothing of an id.
pub unknown :
    (id : ℕ) (b : Book)
    → WellFormed b
    → b.index id ≡ none
    → (count_id id (orders b.bids) ≡ 0) × (count_id id (orders b.asks) ≡ 0)
unknown id b v i =
    let none_held : tally (holds id) b ≡ 0 = subst (Located id b) i (v.indexed id) in
    (omega (arith, none_held), omega (arith, none_held))

pub find_id-queue :
    (s : Side) (p : ℤ) (id : ℕ) (o : RestingOrder) (b : Book)
    → Found id (record { side = s; price = p }) o b
    → find_id id (orders (levels_of s b)) ≡ some o
find_id-queue s p id o b f =
    orders-find_at id p o (levels_of s b) f.at_loc (count-here s p id o b f)

requeued_at :
    (s : Side) (p : ℤ) (id : ℕ) (o o' : RestingOrder) (ls : List Level)
    → o'.price ≡ p
    → find_at p id ls ≡ some o
    → count_id id (orders ls) ≡ 1
    → Ordered s ls
    → orders (requeue_at p id o' ls) ≡ enqueue s o' (erase_id id (orders ls))
requeued_at s p id o o' ls e h alone v =
    subst (λ q. orders (requeue_at q id o' ls) ≡ enqueue s o' (erase_id id (orders ls))) e
      (orders-requeue_at id s o o' ls (rw e h) alone v)

pub apply_fate-queues :
    (s : Side) (p : ℤ) (id : ℕ) (o : RestingOrder) (b : Book) (fate : Fate)
    → WellFormed b
    → Found id (record { side = s; price = p }) o b
    → FateOk s p id fate
    → queues (apply_fate (record { side = s; price = p }) id fate b)
      ≡ on_side s (after_fate s id fate (orders (levels_of s b))) (queues b)
unfolding after_fate
apply_fate-queues buy p id o b (stays o') v f ok =
    ap (λ xs. both xs (orders b.asks))
      (orders-update_at id p (λ _. o') o b.bids f.at_loc (count-here buy p id o b f))
apply_fate-queues sell p id o b (stays o') v f ok =
    ap (λ xs. both (orders b.bids) xs)
      (orders-update_at id p (λ _. o') o b.asks f.at_loc (count-here sell p id o b f))
apply_fate-queues buy p id o b (requeued o') v f ok =
    ap (λ xs. both xs (orders b.asks))
      (requeued_at buy p id o o' b.bids ok.0.0 f.at_loc (count-here buy p id o b f) v.bids_ordered)
apply_fate-queues sell p id o b (requeued o') v f ok =
    ap (λ xs. both (orders b.bids) xs)
      (requeued_at sell p id o o' b.asks ok.0.0 f.at_loc (count-here sell p id o b f)
        v.asks_ordered)
apply_fate-queues buy p id o b gone v f ok =
    ap (λ xs. both xs (orders b.asks))
      (orders-erase_at id p o b.bids f.at_loc (count-here buy p id o b f))
apply_fate-queues sell p id o b gone v f ok =
    ap (λ xs. both (orders b.bids) xs)
      (orders-erase_at id p o b.asks f.at_loc (count-here sell p id o b f))

pub count-there :
    (s : Side) (p : ℤ) (id : ℕ) (o : RestingOrder) (b : Book)
    → Found id (record { side = s; price = p }) o b
    → count_id id (orders (levels_of (opposite s) b)) ≡ 0
unfolding opposite
count-there buy p id o b f = omega (arith, f.alone, count-here buy p id o b f)
count-there sell p id o b f = omega (arith, f.alone, count-here sell p id o b f)

-- A function that changes the queue of one side only may be applied to both.
both_sides :
    (s : Side) (b : Book) (g : List RestingOrder → List RestingOrder)
    → g (orders (levels_of (opposite s) b)) ≡ orders (levels_of (opposite s) b)
    → on_side s (g (orders (levels_of s b))) (queues b)
      ≡ both (g (orders b.bids)) (g (orders b.asks))
unfolding opposite
both_sides buy b g h = ap (both (g (orders b.bids))) (sym h)
both_sides sell b g h = ap (λ xs. both xs (g (orders b.asks))) (sym h)

pub cancel-queues :
    (id : ℕ) (b : Book)
    → WellFormed b
    → queues (cancel id b).1 ≡ both (erase_id id (orders b.bids)) (erase_id id (orders b.asks))
unfolding cancel after_fate
cancel-queues id b v = elim (Option-cases (b.index id)) [
  | inl i ↦
      let (bids, asks) = unknown id b v i in
      rw (i, cancel)
        (ap₂ both (sym (erase_id-absent id (orders b.bids) bids))
          (sym (erase_id-absent id (orders b.asks) asks)))
  | inr (loc, i) ↦
      let (o, f) = located-Found id loc b v i in
      rw (i, cancel)
        (apply_fate-queues loc.side loc.price id o b gone v f tt
          ∙ both_sides loc.side b (erase_id id) (
              erase_id-absent id (orders (levels_of (opposite loc.side) b))
                (count-there loc.side loc.price id o b f)))
]

store-queues :
    (s : Side) (p : ℤ) (id : ℕ) (g : RestingOrder → RestingOrder) (o : RestingOrder) (b : Book)
    → Found id (record { side = s; price = p }) o b
    → queues (store (record { side = s; price = p }) id g b)
      ≡ on_side s (update_id id g (orders (levels_of s b))) (queues b)
store-queues buy p id g o b f =
    ap (λ xs. both xs (orders b.asks))
      (orders-update_at id p g o b.bids f.at_loc (count-here buy p id o b f))
store-queues sell p id g o b f =
    ap (λ xs. both (orders b.bids) xs)
      (orders-update_at id p g o b.asks f.at_loc (count-here sell p id o b f))

updated_both :
    (id : ℕ) (g : RestingOrder → RestingOrder) (loc : Loc) (b : Book)
    → WellFormed b
    → b.index id ≡ some loc
    → queues (store loc id g b)
      ≡ both (update_id id g (orders b.bids)) (update_id id g (orders b.asks))
updated_both id g loc b v i =
    let (o, f) = located-Found id loc b v i in
    store-queues loc.side loc.price id g o b f
    ∙ both_sides loc.side b (update_id id g) (
        update_id-absent id g (orders (levels_of (opposite loc.side) b))
          (count-there loc.side loc.price id o b f))

updated_none :
    (id : ℕ) (g : RestingOrder → RestingOrder) (b : Book)
    → WellFormed b
    → b.index id ≡ none
    → queues b ≡ both (update_id id g (orders b.bids)) (update_id id g (orders b.asks))
updated_none id g b v i =
    let (bids, asks) = unknown id b v i in
    ap₂ both (sym (update_id-absent id g (orders b.bids) bids))
      (sym (update_id-absent id g (orders b.asks) asks))

pub reduce-queues :
    (id n : ℕ) (b : Book)
    → WellFormed b
    → some (queues (reduce id n b).1) ≡ queue_call (reduces id n) (queues b)
unfolding reduce queue_call
reduce-queues id n b v = elim (Option-cases (b.index id)) [
  | inl i ↦ rw (i, reduce) (ap some (updated_none id (λ o. record o { leaves = n }) b v i))
  | inr (loc, i) ↦
      rw (i, reduce) (ap some (updated_both id (λ o. record o { leaves = n }) loc b v i))
]

pub reduce_total-queues :
    (id n : ℕ) (b : Book)
    → WellFormed b
    → some (queues (reduce_total id n b).1) ≡ queue_call (trims id n) (queues b)
unfolding reduce_total queue_call
reduce_total-queues id n b v = elim (Option-cases (b.index id)) [
  | inl i ↦ rw (i, reduce_total) (ap some (updated_none id (reduced_total n) b v i))
  | inr (loc, i) ↦ rw (i, reduce_total) (ap some (updated_both id (reduced_total n) loc b v i))
]

pub consume_in-absent :
    (s : Side) (id by : ℕ) (os : List RestingOrder)
    → count_id id os ≡ 0
    → consume_in s id by os ≡ some os
unfolding consume_in
consume_in-absent s id by os h = rw (find_id-absent id os h, consume_in) refl
