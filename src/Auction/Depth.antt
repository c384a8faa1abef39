-- ===== src/Auction/Depth.antt =====
-- The quantity of a side that a price reaches, and what a fill of the best order takes from it:
-- venue/include/flox-venue/matching_book.h as runAuction calls it.
use venue_core.Prelude.{
  ℕ, ◌+◌, ◌≤◌, ◌≡◌, refl, ap, subst, ◌∙◌, Bool, not, if◌then◌else◌, if-split, some, List, [], ◌∷◌,
  map, sum_by, sum_by-append, All, arith,
}
use venue_core.Prelude.Int.{ℤ}
use venue_core.Types.{Side, buy, sell, RestingOrder, opposite}
use venue_core.Book.Levels.{Level, better, orders, total_of, settle, Fate, stays, requeued, gone}
use venue_core.Book.Order.{Ordered, Placed}
use venue_core.Book.Weight.{sum-update, sum-erase, sum-requeue}
use venue_core.Book.Invariant.{tally, WellFormed}
use venue_core.Book.Preserve.{Found, found-Placed}
use venue_core.Book.Operations.{settle-FateOk, apply_fate-WellFormed}
use venue_core.Book.Fills.{apply_fate-weight, left-total, settle-total, settle_ok, weight_left}
use venue_core.Book.Best.{AtFront, peek-AtFront}
use venue_core.Book.{Book, Loc, levels_of, levels, apply_fate, consume_by_id, peek_best}
use venue_core.Auction.{demand, supply}

abbrev pub within : Side → ℤ → ℤ → Bool
within s q p = not (better s q p)

abbrev pub reachable : Side → ℤ → RestingOrder → ℕ
reachable s q o = if within s q o.price then total_of o else 0

abbrev pub depth : Side → ℤ → Book → ℕ
depth s q b = sum_by (reachable s q) (orders (levels_of s b))

level-reachable :
    (s : Side) (q p : ℤ) (os : List RestingOrder)
    → All (Placed s p) os
    → sum_by (reachable s q) os ≡ (if within s q p then sum_by total_of os else 0)
level-reachable s q p [] h = if-split (λ n. 0 ≡ n) (within s q p) (λ e. refl) (λ e. refl)
level-reachable s q p (o ∷ os) h =
    let same : o.price ≡ p = h.0.0 in rw same (ground (arith, level-reachable s q p os h.1))

abbrev totals : List Level → List (ℤ × ℕ)
totals ls = map (λ l. (l.price, sum_by total_of l.orders)) ls

demand-orders :
    (q : ℤ) (ls : List Level)
    → Ordered buy ls
    → demand q (totals ls) ≡ sum_by (reachable buy q) (orders ls)
unfolding demand
demand-orders q [] h = refl
demand-orders q (l ∷ ls) h = ground (
  arith,
  demand-orders q ls h.3,
  level-reachable buy q l.price l.orders h.1,
  sum_by-append (reachable buy q) l.orders (orders ls),
)

supply-orders :
    (q : ℤ) (ls : List Level)
    → Ordered sell ls
    → supply q (totals ls) ≡ sum_by (reachable sell q) (orders ls)
unfolding supply
supply-orders q [] h = refl
supply-orders q (l ∷ ls) h = ground (
  arith,
  supply-orders q ls h.3,
  level-reachable sell q l.price l.orders h.1,
  sum_by-append (reachable sell q) l.orders (orders ls),
)

pub demand-depth : (q : ℤ) (b : Book) → WellFormed b → demand q (levels buy b) ≡ depth buy q b
unfolding levels
demand-depth q b v = demand-orders q b.bids v.bids_ordered

pub supply-depth : (q : ℤ) (b : Book) → WellFormed b → supply q (levels sell b) ≡ depth sell q b
unfolding levels
supply-depth q b v = supply-orders q b.asks v.asks_ordered

-- What a fill takes from the depth at a price.
abbrev pub taken : Side → ℤ → RestingOrder → ℕ → ℕ
taken s q o by = if within s q o.price then by else 0

settle-reachable :
    (s : Side) (q : ℤ) (o : RestingOrder) (by : ℕ) {fate : Fate}
    → settle o by ≡ some fate
    → weight_left (reachable s q) fate + taken s q o by ≡ reachable s q o
unfolding settle
settle-reachable s q o by e = ground arith

apply_fate-depth :
    (s : Side) (q p : ℤ) (id : ℕ) (o : RestingOrder) (b : Book) (fate : Fate)
    → Found id (record { side = s; price = p }) o b
    → depth s q (apply_fate (record { side = s; price = p }) id fate b) + reachable s q o
      ≡ depth s q b + weight_left (reachable s q) fate
apply_fate-depth buy q p id o b (stays o') f =
    sum-update (reachable buy q) p id (λ _. o') o b.bids f.at_loc
apply_fate-depth buy q p id o b (requeued o') f =
    sum-requeue (reachable buy q) p id o o' b.bids f.at_loc
apply_fate-depth buy q p id o b gone f =
    omega (arith, sum-erase (reachable buy q) p id o b.bids f.at_loc)
apply_fate-depth sell q p id o b (stays o') f =
    sum-update (reachable sell q) p id (λ _. o') o b.asks f.at_loc
apply_fate-depth sell q p id o b (requeued o') f =
    sum-requeue (reachable sell q) p id o o' b.asks f.at_loc
apply_fate-depth sell q p id o b gone f =
    omega (arith, sum-erase (reachable sell q) p id o b.asks f.at_loc)

apply_fate-other :
    (s : Side) (p : ℤ) (id : ℕ) (b : Book) (fate : Fate)
    → levels_of (opposite s) (apply_fate (record { side = s; price = p }) id fate b)
      ≡ levels_of (opposite s) b
unfolding opposite
apply_fate-other buy p id b (stays o) = refl
apply_fate-other buy p id b (requeued o) = refl
apply_fate-other buy p id b gone = refl
apply_fate-other sell p id b (stays o) = refl
apply_fate-other sell p id b (requeued o) = refl
apply_fate-other sell p id b gone = refl

-- The book after a fill of the best order of a side.
pub record Eaten (s : Side) (o : RestingOrder) (by : ℕ) (b b' : Book) : Type 0 where
  pub done : consume_by_id o.id by b ≡ some b'
  pub well_formed : WellFormed b'
  pub other_side : levels_of (opposite s) b' ≡ levels_of (opposite s) b
  pub whole : tally total_of b' + by ≡ tally total_of b
  pub less : (q : ℤ) → depth s q b' + taken s q o by ≡ depth s q b

eat :
    (s : Side) (p : ℤ) (o : RestingOrder) (by : ℕ) (b : Book)
    → WellFormed b
    → b.index o.id ≡ some (record { side = s; price = p })
    → Found o.id (record { side = s; price = p }) o b
    → by ≤ o.leaves
    → (b' : Book) × Eaten s o by b b'
unfolding consume_by_id
eat s p o by b v i f le =
    let loc : Loc = record { side = s; price = p } in
    let settled : (fate : Fate) × (settle o by ≡ some fate) = settle_ok o by le in
    (
      apply_fate loc o.id settled.0 b,
      record {
        done = rw (i, consume_by_id, f.at_loc, settled.1);
        well_formed =
            apply_fate-WellFormed o.id loc o b settled.0 v i f
              (settle-FateOk s p o by (found-Placed o.id loc o b v i f) settled.1);
        other_side = apply_fate-other s p o.id b settled.0;
        whole = omega (
          arith,
          apply_fate-weight total_of o.id loc o b settled.0 f,
          left-total settled.0,
          settle-total o by settled.1,
        );
        less = λ q. omega (
          arith,
          apply_fate-depth s q p o.id o b settled.0 f,
          settle-reachable s q o by settled.1,
        );
      },
    )

pub eat_best :
    (s : Side) (o : RestingOrder) (by : ℕ) (b : Book)
    → WellFormed b
    → peek_best s b ≡ some o
    → by ≤ o.leaves
    → (b' : Book) × Eaten s o by b b'
eat_best s o by b v e le =
    let f : AtFront s o b = peek-AtFront s o b v e in
    let loc : Loc = record { side = s; price = f.loc.price } in
    let same : f.loc ≡ loc = ap (λ t. record { side = t; price = f.loc.price }) f.on_side in
    eat s f.loc.price o by b v (f.index ∙ ap some same) (subst (λ l. Found o.id l o b) same f.found)
      le
