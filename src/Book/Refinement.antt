-- ===== src/Book/Refinement.antt =====
-- venue/include/flox-venue/matching_book.h against the abstract book of Book/Queue.
use venue_core.Prelude.{
  ℕ, ◌≡◌, refl, sym, ap, subst, ◌∙◌, Option, none, some, List, [], ◌∷◌, ◌++◌, Option-cases, inl,
  inr,
}
use venue_core.Types.{Side, buy, sell, opposite, RestingOrder}
use venue_core.Book.Order.{Ordered}
use venue_core.Book.Levels.{Level, orders, Fate, settle, find_id, front_order}
use venue_core.Book.Invariant.{WellFormed}
use venue_core.Book.Preserve.{located-Found, found-Placed, found-id}
use venue_core.Book.Operations.{FateOk, settle-FateOk}
use venue_core.Book.Best.{fill_best-eq-consume_by_id}
use venue_core.Book.Fills.{fill_front_empty}
use venue_core.Book.Abstract.{orders-push_order}
use venue_core.Book.Image.{
  both, on_side, unknown, find_id-queue, apply_fate-queues, cancel-queues, reduce-queues,
  reduce_total-queues, consume_in-absent, count-there,
}
use venue_core.Book.Queue.{
  Queues, queues, queue_of, head, after_fate, consume_in, consume_queues, Call, adds, reduces,
  trims, consumes, fills, cancels, call, queue_call,
}
use venue_core.Book.{Book, levels_of, add_resting, consume_by_id, fill_best, peek_best}

-- The abstract view of a result.
abbrev pub view : Option Book → Option Queues
view none = none
view (some b) = some (queues b)

abbrev settled : Side → ℕ → List RestingOrder → Option Fate → Option (List RestingOrder)
settled s id os none = none
settled s id os (some fate) = some (after_fate s id fate os)

consume_in-found :
    (s : Side) (id by : ℕ) (o : RestingOrder) (os : List RestingOrder) {x : Option Fate}
    → find_id id os ≡ some o
    → settle o by ≡ x
    → consume_in s id by os ≡ settled s id os x
unfolding consume_in
consume_in-found s id by o os {x = none} e f = rw (e, consume_in, f) refl
consume_in-found s id by o os {x = some fate} e f = rw (e, consume_in, f) refl

abbrev put_side : Side → Queues → Option (List RestingOrder) → Option Queues
put_side s q none = none
put_side s q (some os) = some (on_side s os q)

-- A fill of an id that one side has is a fill of that side's queue.
consume_queues-side :
    (s : Side) (id by : ℕ) (b : Book) {x : Option (List RestingOrder)}
    → consume_in s id by (orders (levels_of s b)) ≡ x
    → consume_in (opposite s) id by (orders (levels_of (opposite s) b))
      ≡ some (orders (levels_of (opposite s) b))
    → consume_queues id by (queues b) ≡ put_side s (queues b) x
unfolding consume_queues opposite
consume_queues-side buy id by b {x = none} e f = rw (e, consume_queues) refl
consume_queues-side buy id by b {x = some os} e f = rw (e, consume_queues, f) refl
consume_queues-side sell id by b {x = none} e f = rw (f, consume_queues, e) refl
consume_queues-side sell id by b {x = some os} e f = rw (f, consume_queues, e) refl

consume-view :
    (id by : ℕ) (b : Book)
    → WellFormed b
    → view (consume_by_id id by b) ≡ consume_queues id by (queues b)
unfolding consume_by_id opposite
consume-view id by b v = elim (Option-cases (b.index id)) [
  | inl i ↦
      let (bids, asks) = unknown id b v i in
      rw (i, consume_by_id)
        (sym (
          consume_queues-side buy id by b (consume_in-absent buy id by (orders b.bids) bids)
            (consume_in-absent sell id by (orders b.asks) asks)))
  | inr (loc, i) ↦
      let (o, f) = located-Found id loc b v i in
      let mine : find_id id (orders (levels_of loc.side b)) ≡ some o =
        find_id-queue loc.side loc.price id o b f in
      let others =
        consume_in-absent (opposite loc.side) id by (orders (levels_of (opposite loc.side) b))
          (count-there loc.side loc.price id o b f) in
      elim (Option-cases (settle o by)) [
        | inl e ↦
            rw (i, consume_by_id, f.at_loc, e)
              (sym (
                consume_queues-side loc.side id by b
                  (consume_in-found loc.side id by o (orders (levels_of loc.side b)) mine e)
                  others))
        | inr (fate, e) ↦
            let ok : FateOk loc.side loc.price id fate =
              subst (λ j. FateOk loc.side loc.price j fate) (found-id id loc o b v i f)
                (settle-FateOk loc.side loc.price o by (found-Placed id loc o b v i f) e) in
            rw (i, consume_by_id, f.at_loc, e)
              (ap some (apply_fate-queues loc.side loc.price id o b fate v f ok)
                ∙ sym (
                    consume_queues-side loc.side id by b
                      (consume_in-found loc.side id by o (orders (levels_of loc.side b)) mine e)
                      others))
      ]
]

add-view :
    (s : Side) (o : RestingOrder) (b : Book)
    → WellFormed b
    → some (queues (add_resting s o b).1) ≡ queue_call (adds s o) (queues b)
unfolding add_resting queue_call
add-view buy o b v =
    ap (λ xs. some (both xs (orders b.asks)))
      (orders-push_order buy (record o { side = buy }) b.bids v.bids_ordered)
add-view sell o b v =
    ap (λ xs. some (both (orders b.bids) xs))
      (orders-push_order sell (record o { side = sell }) b.asks v.asks_ordered)

front-head : (s : Side) (ls : List Level) → Ordered s ls → front_order ls ≡ head (orders ls)
front-head s [] h = refl
front-head s (l ∷ ls) h = first l.orders h.0
  where
    first :
        (os : List RestingOrder)
        → (os ≡ [] → ⊥)
        → Path
            (Option RestingOrder)
            (elim os [ [] ↦ none | o ∷ _ ↦ some o ])
            (head (os ++ orders ls))
    first [] ne = absurd (ne refl)
    first (o ∷ os) ne = refl

-- The best order of a well-formed book is the head of the abstract queue of its side.
pub peek_best-head :
    (s : Side) (b : Book) → WellFormed b → peek_best s b ≡ head (queue_of s (queues b))
unfolding peek_best
peek_best-head buy b v = front-head buy b.bids v.bids_ordered
peek_best-head sell b v = front-head sell b.asks v.asks_ordered

fill-view :
    (s : Side) (by : ℕ) (b : Book)
    → WellFormed b
    → view (fill_best s by b) ≡ queue_call (fills s by) (queues b)
unfolding queue_call
fill-view s by b v = elim (Option-cases (peek_best s b)) [
  | inl e ↦
      ap view (fill_front_empty s by b e) ∙ rw (sym (peek_best-head s b v) ∙ e, queue_call) refl
  | inr (o, e) ↦
      ap view (fill_best-eq-consume_by_id s by b v e)
      ∙ consume-view o.id by b v
      ∙ rw (sym (peek_best-head s b v) ∙ e, queue_call) refl
]

-- Every call on a well-formed book is, seen as two lists of orders in the order of their priority,
-- the same call on those lists, faults included: no call depends on the levels or on the index.
pub call-view : (c : Call) (b : Book) → WellFormed b → view (call c b) ≡ queue_call c (queues b)
unfolding call queue_call
call-view (adds s o) b v = add-view s o b v
call-view (reduces id n) b v = reduce-queues id n b v
call-view (trims id n) b v = reduce_total-queues id n b v
call-view (consumes id by) b v = consume-view id by b v
call-view (fills s by) b v = fill-view s by b v
call-view (cancels id) b v = ap some (cancel-queues id b v)
