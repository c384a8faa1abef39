-- ===== src/Book/Best.antt =====
-- The best order of a side and the id index, in venue/include/flox-venue/matching_book.h.
use venue_core.Prelude.{
  ap₂, ℕ, ◌+◌, ◌≤◌, ◌<◌, ◌≡◌, refl, none, some, Option, List, ◌∷◌, sum_by, sum_by-append, arith,
  Bool-cases, Option-cases, inl, inr, ◌∙◌, sym, subst,
}
use venue_core.Prelude.Int.{ℤ, eqb_ℤ, eqb_ℤ→eq}
use venue_core.Types.{Side, buy, sell, RestingOrder}
use venue_core.Book.Levels.{Level, orders, find_at, update_at, gone, total_of}
use venue_core.Book.Weight.{holds, sum-update}
use venue_core.Book.Lookup.{find_at-count}
use venue_core.Book.Invariant.{tally, tally-with_levels, Located, WellFormed, found-counted}
use venue_core.Book.Preserve.{Found, located-Found, found-Placed, eq_self}
use venue_core.Book.Operations.{reduce_total-WellFormed}
use venue_core.Book.{
  Book, Loc, levels_of, deref, consume_by_id, fill_best, peek_best, cancel, reduce_total,
  reduced_total,
}
use venue_core.Book.Fills.{Filled, consume-Filled, apply_fate-weight, size}
use venue_core.Book.Front.{Best, peek-Best, best-deref, fill_best-fated, consume-fated}

two_sides :
    (s t : Side) (p q : ℤ) (id : ℕ) (o o' : RestingOrder) (b : Book)
    → tally (holds id) b ≡ 1
    → find_at p id (levels_of s b) ≡ some o
    → find_at q id (levels_of t b) ≡ some o'
    → t ≡ s
two_sides buy buy p q id o o' b h e f = refl
two_sides buy sell p q id o o' b h e f =
    absurd (omega (arith, find_at-count p id o b.bids e, find_at-count q id o' b.asks f))
two_sides sell buy p q id o o' b h e f =
    absurd (omega (arith, find_at-count p id o b.asks e, find_at-count q id o' b.bids f))
two_sides sell sell p q id o o' b h e f = refl

side-count :
    (w : RestingOrder → ℕ) (s : Side) (b : Book) → sum_by w (orders (levels_of s b)) ≤ tally w b
side-count w buy b = omega arith
side-count w sell b = omega arith

one_level :
    (p q : ℤ) (o o' : RestingOrder) (os : List RestingOrder) (ls : List Level)
    → sum_by (holds o.id) (orders (record { price = p; orders = o ∷ os } ∷ ls)) ≤ 1
    → find_at q o.id (record { price = p; orders = o ∷ os } ∷ ls) ≡ some o'
    → q ≡ p
unfolding find_at
one_level p q o o' os ls h e = elim (Bool-cases (eqb_ℤ p q)) [
  | inl t ↦ sym (eqb_ℤ→eq p q t)
  | inr t ↦ absurd (
      ground (
        arith,
        eq_self o.id,
        find_at-count q o.id o' ls (rw t at e),
        sum_by-append (holds o.id) os (orders ls),
      ))
]

module _ (s : Side) (o : RestingOrder) (b : Book) (v : WellFormed b) (best : Best s o b) where
  best_here : find_at best.best_price o.id (levels_of s b) ≡ some o
  best_here = best-deref s o b 0 best

  best-price :
      (q : ℤ) (o' : RestingOrder)
      → tally (holds o.id) b ≡ 1
      → find_at q o.id (levels_of s b) ≡ some o'
      → q ≡ best.best_price
  best-price q o' alone e =
      one_level best.best_price q o o' best.behind best.worse
        (rw best.shape at (
          let bound : sum_by (holds o.id) (orders (levels_of s b)) ≤ 1 =
            omega (arith, alone, side-count (holds o.id) s b) in
          bound))
        (rw best.shape at e)

  best-loc :
      (loc : Loc) (o' : RestingOrder)
      → Found o.id loc o' b
      → some loc ≡ some (record { side = s; price = best.best_price })
  best-loc loc o' f =
      let side_eq : loc.side ≡ s =
        two_sides s loc.side best.best_price loc.price o.id o o' b f.alone best_here f.at_loc in
      ap₂ {C = Option Loc} (λ t p. some (record { side = t; price = p })) side_eq
        (best-price loc.price o' f.alone
          (subst (λ t. find_at loc.price o.id (levels_of t b) ≡ some o') side_eq f.at_loc))

  -- The index knows where the best order is.
  pub best-index : b.index o.id ≡ some (record { side = s; price = best.best_price })
  best-index = elim (Option-cases (b.index o.id)) [
    | inl e ↦ absurd (
        omega (
          arith,
          found-counted s best.best_price o.id o b best_here,
          let h : Located o.id b none = subst (Located o.id b) e (v.indexed o.id) in h,
        ))
    | inr (loc, e) ↦
        let found : (o' : RestingOrder) × Found o.id loc o' b = located-Found o.id loc b v e in
        e ∙ best-loc loc found.0 found.1
  ]

  fill-consume-best : (by : ℕ) → fill_best s by b ≡ consume_by_id o.id by b
  fill-consume-best by =
      fill_best-fated s o b by best refl ∙ sym (consume-fated s o b by best best-index refl)

-- On a well-formed book, filling the best order of a side and consuming that order by its id are
-- the same operation, faults included.
pub fill_best-eq-consume_by_id :
    (s : Side) (by : ℕ) (b : Book) {o : RestingOrder}
    → WellFormed b
    → peek_best s b ≡ some o
    → fill_best s by b ≡ consume_by_id o.id by b
fill_best-eq-consume_by_id s by b {o} v e = fill-consume-best s o b v (peek-Best s o b e) by

-- What the index says of the best order.
pub record AtFront (s : Side) (o : RestingOrder) (b : Book) : Type 0 where
  pub loc : Loc
  pub on_side : loc.side ≡ s
  pub index : b.index o.id ≡ some loc
  pub found : Found o.id loc o b

pub peek-AtFront :
    (s : Side) (o : RestingOrder) (b : Book) → WellFormed b → peek_best s b ≡ some o → AtFront s o b
peek-AtFront s o b v e =
    let best : Best s o b = peek-Best s o b e in
    let loc : Loc = record { side = s; price = best.best_price } in
    let index : b.index o.id ≡ some loc = best-index s o b v best in
    let found : (o' : RestingOrder) × Found o.id loc o' b = located-Found o.id loc b v index in
    record {
      loc = loc;
      on_side = refl;
      index = index;
      found = record { at_loc = best_here s o b v best; alone = found.1.alone };
    }

pub best-Placed :
    (s : Side) (o : RestingOrder) (b : Book) → WellFormed b → peek_best s b ≡ some o → 0 < o.leaves
best-Placed s o b v e =
    let f : AtFront s o b = peek-AtFront s o b v e in
    (found-Placed o.id f.loc o b v f.index f.found).2

pub fill_best-Filled :
    (s : Side) (by : ℕ) (o : RestingOrder) (b : Book)
    → WellFormed b
    → peek_best s b ≡ some o
    → by ≤ o.leaves
    → (b' : Book) × (fill_best s by b ≡ some b') × Filled o.id by b b'
fill_best-Filled s by o b v e h =
    let f : AtFront s o b = peek-AtFront s o b v e in
    let filled : (b' : Book) × Filled o.id by b b' =
      consume-Filled o.id by f.loc o b v f.index f.found h in
    (filled.0, fill_best-eq-consume_by_id s by b v e ∙ filled.1.done, filled.1)

-- A fill of the best order of a side within what it displays succeeds, keeps the book well-formed
-- and takes exactly its quantity out of the displayed and hidden total of the book.
pub fill_best_total :
    (s : Side) (by : ℕ) (b : Book) {o : RestingOrder}
    → WellFormed b
    → peek_best s b ≡ some o
    → by ≤ o.leaves
    → (b' : Book) × (fill_best s by b ≡ some b')
      × WellFormed b'
      × (tally total_of b' + by ≡ tally total_of b)
fill_best_total s by b {o} v e h =
    let filled : (b' : Book) × (fill_best s by b ≡ some b') × Filled o.id by b b' =
      fill_best-Filled s by o b v e h in
    (filled.0, filled.1, filled.2.well_formed, filled.2.taken)

-- Cancelling the best order takes one order off the book.
pub cancel_best-size :
    (s : Side) (o : RestingOrder) (b : Book)
    → WellFormed b
    → peek_best s b ≡ some o
    → size (cancel o.id b).1 + 1 ≡ size b
unfolding cancel
cancel_best-size s o b v e =
    let f : AtFront s o b = peek-AtFront s o b v e in
    rw (f.index, cancel) (omega (arith, apply_fate-weight (λ _. 1) o.id f.loc o b gone f.found))

-- The index names one order.
pub Found-unique :
    (id : ℕ) (loc loc' : Loc) (o o' : RestingOrder) (b : Book)
    → b.index id ≡ some loc
    → b.index id ≡ some loc'
    → Found id loc o b
    → Found id loc' o' b
    → o' ≡ o
Found-unique id loc loc' o o' b i i' g g' =
    let same : loc' ≡ loc = ground arith in
    let at : deref loc id b ≡ some o' = subst (λ l. deref l id b ≡ some o') same g'.at_loc in
    ground (arith, g.at_loc)

-- Trimming the best order in place keeps the book well-formed and every order on it.
pub trim_best :
    (s : Side) (o : RestingOrder) (n : ℕ) (b : Book)
    → WellFormed b
    → peek_best s b ≡ some o
    → 0 < n
    → n ≤ total_of o
    → WellFormed (reduce_total o.id n b).1 × (size (reduce_total o.id n b).1 ≡ size b)
unfolding reduce_total
trim_best s o n b v e p h =
    let f : AtFront s o b = peek-AtFront s o b v e in
    (
      reduce_total-WellFormed o.id n b v p
          (λ loc o' i g. rw (Found-unique o.id f.loc loc o o' b f.index i f.found g) h),
      rw (f.index, reduce_total)
          (omega (
            arith,
            tally-with_levels (λ _. 1) f.loc.side
                (update_at f.loc.price o.id (reduced_total n) (levels_of f.loc.side b)) b,
            sum-update (λ _. 1) f.loc.price o.id (reduced_total n) o (levels_of f.loc.side b)
                f.found.at_loc,
          )),
    )
