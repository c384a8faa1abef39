-- ===== src/Book/Fills.antt =====
-- Fills of a resting order by its id, consumeById of venue/include/flox-venue/matching_book.h.
use venue_core.Prelude.{
  refl, none, ℕ, ◌+◌, ◌-◌, ◌≤◌, ◌==◌, ◌≡◌, some, arith, Bool-cases, inl, inr, subst,
}
use venue_core.Types.{Side, RestingOrder}
use venue_core.Book.Levels.{
  fill_front, fill_orders, update_at, erase_at, requeue_at, settle, Fate, stays, requeued, gone,
  qmin, total_of,
}
use venue_core.Book.Weight.{sum-update, sum-erase, sum-requeue}
use venue_core.Book.Invariant.{tally, WellFormed, tally-with_levels}
use venue_core.Book.Preserve.{Found, found-Placed, found-id}
use venue_core.Book.Operations.{FateOk, settle-FateOk, apply_fate-WellFormed}
use venue_core.Book.{peek_best, fill_best, Book, Loc, levels_of, apply_fate, consume_by_id}

-- The quantity that a fate leaves of an order.
abbrev pub left_of : Fate → ℕ
left_of (stays o) = total_of o
left_of (requeued o) = total_of o
left_of gone = 0

pub settle-total :
    (o : RestingOrder) (by : ℕ) {fate : Fate}
    → settle o by ≡ some fate
    → left_of fate + by ≡ total_of o
unfolding settle
settle-total o by e = ground arith

pub settle_ok :
    (o : RestingOrder) (by : ℕ) → by ≤ o.leaves → (fate : Fate) × (settle o by ≡ some fate)
unfolding settle
settle_ok o by h = elim (Bool-cases ((o.leaves - by) == 0)) [
  | inl e ↦ elim (Bool-cases (o.hidden == 0)) [
    | inl f ↦ (gone, ground arith)
    | inr f ↦ (
      requeued (record o {
        leaves = qmin o.peak o.hidden;
        hidden = o.hidden - qmin o.peak o.hidden;
        cum_qty = o.cum_qty + by;
      }),
      ground arith,
    )
  ]
  | inr e ↦ (stays (record o { leaves = o.leaves - by; cum_qty = o.cum_qty + by }), ground arith)
]

-- What a fate leaves of an order, weighed.
abbrev pub weight_left : (RestingOrder → ℕ) → Fate → ℕ
weight_left w (stays o) = w o
weight_left w (requeued o) = w o
weight_left w gone = 0

pub apply_fate-weight :
    (w : RestingOrder → ℕ) (id : ℕ) (loc : Loc) (o : RestingOrder) (b : Book) (fate : Fate)
    → Found id loc o b
    → tally w (apply_fate loc id fate b) + w o ≡ tally w b + weight_left w fate
apply_fate-weight w id loc o b (stays o') h = omega (
  arith,
  tally-with_levels w loc.side (update_at loc.price id (λ _. o') (levels_of loc.side b)) b,
  sum-update w loc.price id (λ _. o') o (levels_of loc.side b) h.at_loc,
)
apply_fate-weight w id loc o b (requeued o') h = omega (
  arith,
  tally-with_levels w loc.side (requeue_at loc.price id o' (levels_of loc.side b)) b,
  sum-requeue w loc.price id o o' (levels_of loc.side b) h.at_loc,
)
apply_fate-weight w id loc o b gone h = omega (
  arith,
  tally-with_levels w loc.side (erase_at loc.price id (levels_of loc.side b)) b,
  sum-erase w loc.price id o (levels_of loc.side b) h.at_loc,
)

-- The number of orders on the book.
abbrev pub size : Book → ℕ
size b = tally (λ _. 1) b

fate-size : (fate : Fate) → weight_left (λ _. 1) fate ≤ 1
fate-size (stays o) = omega arith
fate-size (requeued o) = omega arith
fate-size gone = omega arith

pub left-total : (fate : Fate) → weight_left total_of fate ≡ left_of fate
left-total (stays o) = refl
left-total (requeued o) = refl
left-total gone = refl

-- A fill of an order on the book, within what it displays.
pub record Filled (id by : ℕ) (b b' : Book) : Type 0 where
  pub done : consume_by_id id by b ≡ some b'
  pub well_formed : WellFormed b'
  pub taken : tally total_of b' + by ≡ tally total_of b
  pub no_more : size b' ≤ size b

pub consume-Filled :
    (id by : ℕ) (loc : Loc) (o : RestingOrder) (b : Book)
    → WellFormed b
    → b.index id ≡ some loc
    → Found id loc o b
    → by ≤ o.leaves
    → (b' : Book) × Filled id by b b'
unfolding consume_by_id
consume-Filled id by loc o b v e h k =
    let settled : (fate : Fate) × (settle o by ≡ some fate) = settle_ok o by k in
    (
      apply_fate loc id settled.0 b,
      record {
        done = rw (e, consume_by_id, h.at_loc, settled.1);
        well_formed = apply_fate-WellFormed id loc o b settled.0 v e h (
            subst (λ i. FateOk loc.side loc.price i settled.0) (found-id id loc o b v e h)
              (settle-FateOk loc.side loc.price o by (found-Placed id loc o b v e h) settled.1));
        taken = omega (
          arith,
          apply_fate-weight total_of id loc o b settled.0 h,
          left-total settled.0,
          settle-total o by settled.1,
        );
        no_more =
            omega (arith, apply_fate-weight (λ _. 1) id loc o b settled.0 h, fate-size settled.0);
      },
    )

-- A side with no best order has nothing to fill.
pub fill_front_empty :
    (s : Side) (by : ℕ) (b : Book) → peek_best s b ≡ none → fill_best s by b ≡ none
unfolding peek_best fill_best fill_front fill_orders
fill_front_empty s by b e = ground arith
