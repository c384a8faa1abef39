-- ===== src/Auction/Shrink.antt =====
-- What the cancels and decrements of an uncross leave on the book, cancelForStp and decrementForStp
-- of venue/include/flox-venue/engine/publications.inl.
use venue_core.Prelude.{
  ℕ, ◌-◌, ◌≤◌, ◌<◌, ◌≡◌, subst, leb, if-split, Option-cases, inl, inr, none, some, arith,
}
use venue_core.Types.{Side, RestingOrder}
use venue_core.Book.Levels.{total_of, gone, update_at}
use venue_core.Book.Weight.{sum-update}
use venue_core.Book.Invariant.{tally, tally-with_levels, WellFormed}
use venue_core.Book.Preserve.{Found, located-Found, found-Placed}
use venue_core.Book.Operations.{cancel-WellFormed, reduce_total-WellFormed}
use venue_core.Book.Fills.{apply_fate-weight}
use venue_core.Book.Best.{AtFront, peek-AtFront, Found-unique}
use venue_core.Book.{Book, Loc, levels_of, find, cancel, reduce_total, reduced_total, peek_best}
use venue_core.Auction.Uncross.{Auctioneer, Rules, cancel_for_stp, decrement_for_stp}

-- A well-formed book with less on it, or no more.
pub record Less (b b' : Book) : Type 0 where
  pub well_formed : WellFormed b'
  pub less : tally total_of b' < tally total_of b

pub record NoMore (b b' : Book) : Type 0 where
  pub well_formed : WellFormed b'
  pub no_more : tally total_of b' ≤ tally total_of b

pub same-NoMore : (b : Book) → WellFormed b → NoMore b b
same-NoMore b v = record { well_formed = v; no_more = omega arith }

pub Less-NoMore : (b b' : Book) → Less b b' → NoMore b b'
Less-NoMore b b' h = record { well_formed = h.well_formed; no_more = omega (arith, h.less) }

pub Less-then : (b b1 b2 : Book) → Less b b1 → NoMore b1 b2 → Less b b2
Less-then b b1 b2 h k = record {
  well_formed = k.well_formed;
  less = omega (arith, h.less, k.no_more);
}

pub NoMore-then : (b b1 b2 : Book) → NoMore b b1 → NoMore b1 b2 → NoMore b b2
NoMore-then b b1 b2 h k = record {
  well_formed = k.well_formed;
  no_more = omega (arith, h.no_more, k.no_more);
}

-- What `find` finds is what the index names.
record Held (id : ℕ) (o : RestingOrder) (b : Book) : Type 0 where
  loc : Loc
  index : b.index id ≡ some loc
  found : Found id loc o b
  size : 0 < total_of o

find-Held : (id : ℕ) (o : RestingOrder) (b : Book) → WellFormed b → find id b ≡ some o → Held id o b
unfolding find
find-Held id o b v e = elim (Option-cases (b.index id)) [
  | inl i ↦ absurd (ground arith)
  | inr (loc, i) ↦
      let found : (x : RestingOrder) × Found id loc x b = located-Found id loc b v i in
      let same : found.0 ≡ o = ground (arith, found.1.at_loc) in
      let here : Found id loc o b = subst (λ x. Found id loc x b) same found.1 in
      record {
        loc = loc;
        index = i;
        found = here;
        size = omega (arith, (found-Placed id loc o b v i here).2);
      }
]

pub best-find :
    (s : Side) (o : RestingOrder) (b : Book)
    → WellFormed b
    → peek_best s b ≡ some o
    → find o.id b ≡ some o
unfolding find
best-find s o b v e =
    let f : AtFront s o b = peek-AtFront s o b v e in rw (f.index, find) f.found.at_loc

pub cancel-Less :
    (id : ℕ) (o : RestingOrder) (b : Book)
    → WellFormed b
    → find id b ≡ some o
    → Less b (cancel id b).1
unfolding cancel
cancel-Less id o b v e =
    let h : Held id o b = find-Held id o b v e in
    record {
      well_formed = cancel-WellFormed id b v;
      less =
          rw (h.index, cancel)
            (omega (arith, h.size, apply_fate-weight total_of id h.loc o b gone h.found));
    }

unknown_index : (id : ℕ) (b : Book) → WellFormed b → find id b ≡ none → b.index id ≡ none
unfolding find
unknown_index id b v e = elim (Option-cases (b.index id)) [
  | inl i ↦ i
  | inr (loc, i) ↦
      let found : (x : RestingOrder) × Found id loc x b = located-Found id loc b v i in
      absurd (ground (arith, found.1.at_loc))
]

pub cancel-NoMore : (id : ℕ) (b : Book) → WellFormed b → NoMore b (cancel id b).1
unfolding cancel
cancel-NoMore id b v = elim (Option-cases (find id b)) [
  | inl e ↦ rw (unknown_index id b v e, cancel) (same-NoMore b v)
  | inr (o, e) ↦ Less-NoMore b (cancel id b).1 (cancel-Less id o b v e)
]

reduced_total-total : (n : ℕ) (o : RestingOrder) → n ≤ total_of o → total_of (reduced_total n o) ≡ n
reduced_total-total n o h = ground arith

reduce_total-Less :
    (id n : ℕ) (o : RestingOrder) (b : Book)
    → WellFormed b
    → find id b ≡ some o
    → 0 < n
    → n < total_of o
    → Less b (reduce_total id n b).1
unfolding reduce_total
reduce_total-Less id n o b v e p lt =
    let h : Held id o b = find-Held id o b v e in
    record {
      well_formed = reduce_total-WellFormed id n b v p (λ loc x i g.
          rw (Found-unique id h.loc loc o x b h.index i h.found g) (omega (arith, lt)));
      less =
          rw (h.index, reduce_total)
            (omega (
              arith,
              lt,
              reduced_total-total n o (omega (arith, lt)),
              tally-with_levels total_of h.loc.side
                  (update_at h.loc.price id (reduced_total n) (levels_of h.loc.side b)) b,
              sum-update total_of h.loc.price id (reduced_total n) o (levels_of h.loc.side b)
                  h.found.at_loc,
            ));
    }

pub decrement-Less :
    (rules : Rules) (id by : ℕ) (o : RestingOrder) (st : Auctioneer)
    → WellFormed st.book
    → find id st.book ≡ some o
    → 0 < by
    → Less st.book (decrement_for_stp rules id by st).book
unfolding decrement_for_stp cancel_for_stp
decrement-Less rules id by o st v e p =
    rw (e, decrement_for_stp)
      (if-split (λ (s : Auctioneer). Less st.book s.book) (leb (total_of o) by)
        (λ le. cancel-Less id o st.book v e)
        (λ le. reduce_total-Less id (total_of o - by) o st.book v e (ground arith) (ground arith)))

pub decrement-NoMore :
    (rules : Rules) (id by : ℕ) (st : Auctioneer)
    → WellFormed st.book
    → 0 < by
    → NoMore st.book (decrement_for_stp rules id by st).book
unfolding decrement_for_stp
decrement-NoMore rules id by st v p = elim (Option-cases (find id st.book)) [
  | inl e ↦ rw (e, decrement_for_stp) (same-NoMore st.book v)
  | inr (o, e) ↦
      Less-NoMore st.book (decrement_for_stp rules id by st).book
        (decrement-Less rules id by o st v e p)
]
