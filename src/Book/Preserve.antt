-- ===== src/Book/Preserve.antt =====
-- The edits of venue/include/flox-venue/matching_book.h and the invariant.
use venue_core.Prelude.{
  ℕ, ◌<◌, ◌==◌, ◌≡◌, refl, true, false, none, some, Option, List, arith, if◌then◌else◌, ◌∙◌, ==_iff,
  subst,
}
use venue_core.Types.{Side, buy, sell, RestingOrder}
use venue_core.Book.Levels.{Level, orders, update_at, erase_at, requeue_at, requeued, gone}
use venue_core.Book.Order.{Placed, find_at-Placed}
use venue_core.Book.Edit.{update-Ordered, erase-Ordered, requeue-Ordered}
use venue_core.Book.Weight.{holds, count_id, sum-update, sum-erase, sum-requeue}
use venue_core.Book.Lookup.{
  find_at-id, find_at-count, find_at-update_ne, find_at-update_self, find_at-erase_ne,
  find_at-requeue_ne, find_at-requeue_self,
}
use venue_core.Book.Invariant.{
  tally, Located, WellFormed, side-Ordered, tally-with_levels, reindex, Untouched,
  replace-WellFormed, deref-replaced,
}
use venue_core.Book.{Book, Loc, levels_of, with_levels, deref, store, apply_fate}

pub eq_self : (id : ℕ) → (id == id) ≡ true
eq_self id = (==_iff id id).1 refl

-- The order that the index names lies on its side, and no other order of the book has its id.
pub record Found (id : ℕ) (loc : Loc) (o : RestingOrder) (b : Book) : Type 0 where
  pub at_loc : deref loc id b ≡ some o
  pub alone : tally (holds id) b ≡ 1

pub located-Found :
    (id : ℕ) (loc : Loc) (b : Book)
    → WellFormed b
    → b.index id ≡ some loc
    → (o : RestingOrder) × Found id loc o b
located-Found id loc b v e =
    let h : Located id b (some loc) = subst (Located id b) e (v.indexed id) in
    (h.0.0, record { at_loc = h.0.1; alone = h.1 })

only_here :
    (id : ℕ) (s : Side) (b : Book)
    → tally (holds id) b ≡ 1
    → 0 < count_id id (orders (levels_of s b))
    → count_id id (orders (levels_of s b)) ≡ 1
only_here id buy b h k = omega arith
only_here id sell b h k = omega arith

module _ (id : ℕ) (loc : Loc) (o : RestingOrder) (b : Book) (v : WellFormed b)
    (e : b.index id ≡ some loc) (here : Found id loc o b) where
  pub found-Placed : Placed loc.side loc.price o
  found-Placed =
      find_at-Placed loc.side loc.price id o (levels_of loc.side b) (side-Ordered b v loc.side)
        here.at_loc

  pub found-id : o.id ≡ id
  found-id = find_at-id loc.price id o (levels_of loc.side b) here.at_loc

  pub store-WellFormed :
      (f : RestingOrder → RestingOrder)
      → Placed loc.side loc.price (f o)
      → (f o).id ≡ id
      → WellFormed (store loc id f b)
  store-WellFormed f h i =
      replace-WellFormed loc.side ls b b.index id v
        (update-Ordered loc.side loc.price id f o (levels_of loc.side b) here.at_loc h
          (side-Ordered b v loc.side))
        others (rw e own)
    where
      ls : List Level
      ls = update_at loc.price id f (levels_of loc.side b)

      others : (j : ℕ) → (id == j) ≡ false → Untouched loc.side ls b b.index j
      others j ne = record {
        same_index = refl;
        same_count = ground (
          arith,
          found-id,
          sum-update (holds j) loc.price id f o (levels_of loc.side b) here.at_loc,
        );
        same_find =
            λ q. find_at-update_ne loc.price id f o q j (levels_of loc.side b) here.at_loc i ne;
      }

      own : Located id (reindex b.index (with_levels loc.side ls b)) (some loc)
      own = (
        (
          f o,
          deref-replaced loc.side loc.price id ls b b.index
              ∙ find_at-update_self loc.price id f o (levels_of loc.side b) here.at_loc i,
        ),
        ground (
          arith,
          found-id,
          here.alone,
          tally-with_levels (holds id) loc.side ls b,
          sum-update (holds id) loc.price id f o (levels_of loc.side b) here.at_loc,
        ),
      )

  pub requeue-WellFormed :
      (o' : RestingOrder)
      → Placed loc.side loc.price o'
      → o'.id ≡ id
      → WellFormed (apply_fate loc id (requeued o') b)
  requeue-WellFormed o' h i =
      replace-WellFormed loc.side ls b b.index id v
        (requeue-Ordered loc.side loc.price id o' (levels_of loc.side b) h
          (side-Ordered b v loc.side))
        others (rw e own)
    where
      ls : List Level
      ls = requeue_at loc.price id o' (levels_of loc.side b)

      others : (j : ℕ) → (id == j) ≡ false → Untouched loc.side ls b b.index j
      others j ne = record {
        same_index = refl;
        same_count = ground (
          arith,
          found-id,
          sum-requeue (holds j) loc.price id o o' (levels_of loc.side b) here.at_loc,
        );
        same_find = λ q. find_at-requeue_ne loc.price id o' q j (levels_of loc.side b) i ne;
      }

      only : count_id id (orders (levels_of loc.side b)) ≡ 1
      only =
          only_here id loc.side b here.alone
            (find_at-count loc.price id o (levels_of loc.side b) here.at_loc)

      own : Located id (reindex b.index (with_levels loc.side ls b)) (some loc)
      own = (
        (
          o',
          deref-replaced loc.side loc.price id ls b b.index
              ∙ find_at-requeue_self loc.price id o o' (levels_of loc.side b) here.at_loc i only,
        ),
        ground (
          arith,
          found-id,
          here.alone,
          tally-with_levels (holds id) loc.side ls b,
          sum-requeue (holds id) loc.price id o o' (levels_of loc.side b) here.at_loc,
        ),
      )

  pub erase-WellFormed : WellFormed (apply_fate loc id gone b)
  erase-WellFormed =
      replace-WellFormed loc.side ls b f id v
        (erase-Ordered loc.side loc.price id (levels_of loc.side b) (side-Ordered b v loc.side))
        others (rw (eq_self id) own)
    where
      ls : List Level
      ls = erase_at loc.price id (levels_of loc.side b)

      f : ℕ → Option Loc
      f j = if id == j then none else b.index j

      others : (j : ℕ) → (id == j) ≡ false → Untouched loc.side ls b f j
      others j ne = record {
        same_index = rw ne;
        same_count = ground (
          arith,
          found-id,
          sum-erase (holds j) loc.price id o (levels_of loc.side b) here.at_loc,
        );
        same_find = λ q.
            find_at-erase_ne loc.price id loc.side q j (levels_of loc.side b) ne
              (side-Ordered b v loc.side);
      }

      own : Located id (reindex f (with_levels loc.side ls b)) none
      own = ground (
        arith,
        found-id,
        here.alone,
        tally-with_levels (holds id) loc.side ls b,
        sum-erase (holds id) loc.price id o (levels_of loc.side b) here.at_loc,
      )
