-- ===== src/Book/History.antt =====
-- Histories of a book: any sequence of calls that keep to their callers' contracts, from empty.
use venue_core.Prelude.{
  ℕ, ◌<◌, ◌≤◌, ◌≡◌, none, some, arith, Option-cases, inl, inr, ◌⊎◌, ◌∙◌, sym, subst,
}
use venue_core.Types.{Side, RestingOrder}
use venue_core.Book.Levels.{settle, Fate, total_of}
use venue_core.Book.Invariant.{WellFormed, empty_book-WellFormed}
use venue_core.Book.Preserve.{Found, located-Found, found-Placed, found-id}
use venue_core.Book.Operations.{
  FateOk, settle-FateOk, apply_fate-WellFormed, Admissible, add-WellFormed, reduce-WellFormed,
  reduce_total-WellFormed, cancel-WellFormed,
}
use venue_core.Book.Fills.{fill_front_empty}
use venue_core.Book.Best.{fill_best-eq-consume_by_id}
use venue_core.Book.{
  Book, Loc, empty_book, apply_fate, add_resting, reduce, reduce_total, cancel, consume_by_id,
  fill_best, peek_best,
}

consume-WellFormed :
    (id by : ℕ) (b : Book) {b' : Book}
    → WellFormed b
    → consume_by_id id by b ≡ some b'
    → WellFormed b'
unfolding consume_by_id
consume-WellFormed id by b {b'} v e = elim (Option-cases (b.index id)) [
  | inl i ↦ subst WellFormed (let same : b ≡ b' = ground arith in same) v
  | inr (loc, i) ↦ located loc i (located-Found id loc b v i)
]
  where
    located :
        (loc : Loc)
        → b.index id ≡ some loc
        → ((o : RestingOrder) × Found id loc o b)
        → WellFormed b'
    located loc i (o, f) = settled (Option-cases (settle o by))
      where
        settled :
            ((settle o by ≡ none) ⊎ ((fate : Fate) × (settle o by ≡ some fate))) → WellFormed b'
        settled (inl g) = absurd (ground (arith, f.at_loc))
        settled (inr (fate, g)) =
            subst WellFormed
              (let same : apply_fate loc id fate b ≡ b' = ground (arith, f.at_loc) in same)
              (apply_fate-WellFormed id loc o b fate v i f (
                subst (λ j. FateOk loc.side loc.price j fate) (found-id id loc o b v i f)
                  (settle-FateOk loc.side loc.price o by (found-Placed id loc o b v i f) g)))

fill-WellFormed :
    (s : Side) (by : ℕ) (b : Book) {b' : Book}
    → WellFormed b
    → fill_best s by b ≡ some b'
    → WellFormed b'
fill-WellFormed s by b {b'} v e = elim (Option-cases (peek_best s b)) [
  | inl p ↦ absurd (ground (arith, fill_front_empty s by b p))
  | inr (o, p) ↦ consume-WellFormed o.id by b v (sym (fill_best-eq-consume_by_id s by b v p) ∙ e)
]

-- One call. An order is added under a fresh id with something to show; a reduction leaves
-- something and does not grow the order; fills and cancels have no contract of their own.
pub data Step (b : Book) : Book → Type 0 where
  adds : (s : Side) (o : RestingOrder) → Admissible o b → Step b (add_resting s o b).1
  reduces : (id n : ℕ) → 0 < n → Step b (reduce id n b).1
  trims :
      (id n : ℕ)
      → 0 < n
      → ((loc : Loc) (o : RestingOrder) → b.index id ≡ some loc → Found id loc o b → n ≤ total_of o)
      → Step b (reduce_total id n b).1
  consumes : (id by : ℕ) {b' : Book} → consume_by_id id by b ≡ some b' → Step b b'
  fills : (s : Side) (by : ℕ) {b' : Book} → fill_best s by b ≡ some b' → Step b b'
  cancels : (id : ℕ) → Step b (cancel id b).1

pub data Reach : Book → Type 0 where
  start : Reach empty_book
  next : {b b' : Book} → Reach b → Step b b' → Reach b'

pub Step-WellFormed : (b b' : Book) → Step b b' → WellFormed b → WellFormed b'
Step-WellFormed b b' (adds s o a) v = add-WellFormed s o b v a
Step-WellFormed b b' (reduces id n h) v = reduce-WellFormed id n b v h
Step-WellFormed b b' (trims id n h k) v = reduce_total-WellFormed id n b v h k
Step-WellFormed b b' (consumes id by e) v = consume-WellFormed id by b v e
Step-WellFormed b b' (fills s by e) v = fill-WellFormed s by b v e
Step-WellFormed b b' (cancels id) v = cancel-WellFormed id b v

-- Every book that a history of calls within their contracts reaches is well-formed: levels strictly
-- ordered and non-empty, each order at its price and side with something displayed, and the id
-- index naming for each id the one order that has it, or none where there is none.
pub Reach-WellFormed : {b : Book} → Reach b → WellFormed b
Reach-WellFormed start = empty_book-WellFormed
Reach-WellFormed (next {b = b} {b' = b'} r st) = Step-WellFormed b b' st (Reach-WellFormed r)
