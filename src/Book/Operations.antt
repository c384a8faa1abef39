-- ===== src/Book/Operations.antt =====
-- The operations of venue/include/flox-venue/matching_book.h, their callers' contracts and the
-- invariant.
use venue_core.Prelude.{
  ℕ, ◌<◌, ◌≤◌, ◌==◌, ◌≡◌, refl, false, none, some, Option, List, arith, Option-cases, inl, inr, ◌⊎◌,
  if◌then◌else◌, ◌∙◌, subst,
}
use venue_core.Prelude.Int.{ℤ}
use venue_core.Types.{Side, buy, sell, RestingOrder}
use venue_core.Book.Levels.{
  Level, orders, push_order, settle, Fate, stays, requeued, gone, total_of,
}
use venue_core.Book.Order.{Placed, push-Ordered}
use venue_core.Book.Weight.{holds, count_id, sum-push}
use venue_core.Book.Lookup.{find_at-push_ne, find_at-push_self}
use venue_core.Book.Invariant.{
  tally, Located, WellFormed, side-Ordered, tally-with_levels, reindex, Untouched,
  replace-WellFormed, deref-replaced,
}
use venue_core.Book.Preserve.{
  Found, located-Found, found-Placed, found-id, store-WellFormed, requeue-WellFormed,
  erase-WellFormed, eq_self,
}
use venue_core.Book.{
  Book, Loc, levels_of, with_levels, apply_fate, add_resting, reduce, reduce_total, reduced_total,
  cancel,
}

-- What the engine checks before it rests an order.
pub record Admissible (o : RestingOrder) (b : Book) : Type 0 where
  pub fresh : b.index o.id ≡ none
  pub shows : 0 < o.leaves
  pub refills : (o.hidden ≡ 0) ⊎ (0 < o.peak)

pub unused_side :
    (id : ℕ) (s : Side) (b : Book)
    → tally (holds id) b ≡ 0
    → count_id id (orders (levels_of s b)) ≡ 0
unused_side id buy b h = omega arith
unused_side id sell b h = omega arith

pub add-WellFormed :
    (s : Side) (o : RestingOrder) (b : Book)
    → WellFormed b
    → Admissible o b
    → WellFormed (add_resting s o b).1
unfolding add_resting
add-WellFormed s o b v a =
    replace-WellFormed s ls b f o.id v
      (push-Ordered s o.price o' (levels_of s b) placed (side-Ordered b v s)) others
      (rw (eq_self o.id) own)
  where
    o' : RestingOrder
    o' = record o { side = s }

    loc : Loc
    loc = record { side = s; price = o.price }

    ls : List Level
    ls = push_order s o.price o' (levels_of s b)

    f : ℕ → Option Loc
    f j = if o.id == j then some loc else b.index j

    placed : Placed s o.price o'
    placed = (refl, refl, a.shows, a.refills)

    unused : tally (holds o.id) b ≡ 0
    unused = subst (Located o.id b) a.fresh (v.indexed o.id)

    others : (j : ℕ) → (o.id == j) ≡ false → Untouched s ls b f j
    others j ne = record {
      same_index = rw ne;
      same_count = ground (arith, sum-push (holds j) s o.price o' (levels_of s b));
      same_find = λ q. find_at-push_ne s o.price o' q j (levels_of s b) ne (side-Ordered b v s);
    }

    own : Located o.id (reindex f (with_levels s ls b)) (some loc)
    own = (
      (
        o',
        deref-replaced s o.price o.id ls b f
            ∙ find_at-push_self s o.price o' (levels_of s b) (unused_side o.id s b unused)
                (side-Ordered b v s),
      ),
      ground (
        arith,
        unused,
        tally-with_levels (holds o.id) s ls b,
        sum-push (holds o.id) s o.price o' (levels_of s b),
      ),
    )

-- A reduction in place, under the contract that the comments of the source state.
pub reduce-WellFormed :
    (id new_leaves : ℕ) (b : Book)
    → WellFormed b
    → 0 < new_leaves
    → WellFormed (reduce id new_leaves b).1
unfolding reduce
reduce-WellFormed id n b v h = elim (Option-cases (b.index id)) [
  | inl e ↦ rw (e, reduce) v
  | inr (loc, e) ↦
      rw (e, reduce)
        (let found : (o : RestingOrder) × Found id loc o b = located-Found id loc b v e in
          let placed = found-Placed id loc found.0 b v e found.1 in
          store-WellFormed id loc found.0 b v e found.1 (λ o. record o { leaves = n })
            (placed.0, placed.1, h, placed.3) (found-id id loc found.0 b v e found.1))
]

reduced_total-Placed :
    (s : Side) (p : ℤ) (n : ℕ) (o : RestingOrder)
    → Placed s p o
    → 0 < n
    → n ≤ total_of o
    → Placed s p (reduced_total n o)
reduced_total-Placed s p n o h k m = ground arith

reduced_total-id : (n : ℕ) (o : RestingOrder) → (reduced_total n o).id ≡ o.id
reduced_total-id n o = ground arith

pub reduce_total-WellFormed :
    (id n : ℕ) (b : Book)
    → WellFormed b
    → 0 < n
    → ((loc : Loc) (o : RestingOrder) → b.index id ≡ some loc → Found id loc o b → n ≤ total_of o)
    → WellFormed (reduce_total id n b).1
unfolding reduce_total
reduce_total-WellFormed id n b v h k = elim (Option-cases (b.index id)) [
  | inl e ↦ rw (e, reduce_total) v
  | inr (loc, e) ↦
      rw (e, reduce_total)
        (let found : (o : RestingOrder) × Found id loc o b = located-Found id loc b v e in
          store-WellFormed id loc found.0 b v e found.1 (reduced_total n)
            (reduced_total-Placed loc.side loc.price n found.0
              (found-Placed id loc found.0 b v e found.1) h (k loc found.0 e found.1))
            (reduced_total-id n found.0 ∙ found-id id loc found.0 b v e found.1))
]

pub cancel-WellFormed : (id : ℕ) (b : Book) → WellFormed b → WellFormed (cancel id b).1
unfolding cancel
cancel-WellFormed id b v = elim (Option-cases (b.index id)) [
  | inl e ↦ rw (e, cancel) v
  | inr (loc, e) ↦
      rw (e, cancel)
        (let found : (o : RestingOrder) × Found id loc o b = located-Found id loc b v e in
          erase-WellFormed id loc found.0 b v e found.1)
]

-- The fate of a placed order is placed as well.
abbrev pub FateOk : Side → ℤ → ℕ → Fate → Type 0
FateOk s p id (stays o) = Placed s p o × (o.id ≡ id)
FateOk s p id (requeued o) = Placed s p o × (o.id ≡ id)
FateOk s p id gone = Unit {0}

pub settle-FateOk :
    (s : Side) (p : ℤ) (o : RestingOrder) (by : ℕ) {fate : Fate}
    → Placed s p o
    → settle o by ≡ some fate
    → FateOk s p o.id fate
unfolding settle
settle-FateOk s p o by h e = ground arith

pub apply_fate-WellFormed :
    (id : ℕ) (loc : Loc) (o : RestingOrder) (b : Book) (fate : Fate)
    → WellFormed b
    → b.index id ≡ some loc
    → Found id loc o b
    → FateOk loc.side loc.price id fate
    → WellFormed (apply_fate loc id fate b)
apply_fate-WellFormed id loc o b (stays o') v e h f =
    store-WellFormed id loc o b v e h (λ _. o') f.0 f.1
apply_fate-WellFormed id loc o b (requeued o') v e h f =
    requeue-WellFormed id loc o b v e h o' f.0 f.1
apply_fate-WellFormed id loc o b gone v e h f = erase-WellFormed id loc o b v e h
