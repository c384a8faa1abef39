-- ===== src/Auction/Front.antt =====
-- The best orders of both sides against a price: venue/include/flox-venue/matching_book.h as
-- runAuction calls it.
use venue_core.Prelude.{
  ◌≡◌, refl, sym, ◌∙◌, ◌⊎◌, ◌||◌, Bool, true, false, not, if◌then◌else◌, Bool-cases, Option-cases,
  inl, inr, Option, none, some, List, [], ◌∷◌, sum_by, All, arith,
}
use venue_core.Prelude.Int.{ℤ, ltb_ℤ}
use venue_core.Types.{Side, buy, sell, RestingOrder}
use venue_core.Book.Levels.{Level, better, orders, front_order}
use venue_core.Book.Order.{Ordered}
use venue_core.Book.Invariant.{WellFormed, side-Ordered}
use venue_core.Book.Priority.{peek_best-NoBetter}
use venue_core.Book.{Book, levels_of, peek_best}
use venue_core.Auction.Depth.{within, reachable, depth}
use venue_core.Auction.Uncross.{crossing_pair}

unreached :
    (s : Side) (q p : ℤ) (os : List RestingOrder)
    → All (λ x. better s x.price p ≡ false) os
    → within s q p ≡ false
    → sum_by (reachable s q) os ≡ 0
unreached s q p [] h out = refl
unreached buy q p (o ∷ os) h out = ground (arith, unreached buy q p os h.1 out)
unreached sell q p (o ∷ os) h out = ground (arith, unreached sell q p os h.1 out)

-- If a price does not reach the best order of a side it reaches none.
pub depth-best :
    (s : Side) (q : ℤ) (o : RestingOrder) (b : Book)
    → WellFormed b
    → peek_best s b ≡ some o
    → within s q o.price ≡ false
    → depth s q b ≡ 0
depth-best s q o b v e out =
    unreached s q o.price (orders (levels_of s b)) (peek_best-NoBetter s b v e) out

no_orders :
    (s : Side) (q : ℤ) (ls : List Level)
    → Ordered s ls
    → front_order ls ≡ none
    → sum_by (reachable s q) (orders ls) ≡ 0
no_orders s q [] h e = refl
no_orders s q (l ∷ ls) h e = absurd (empty_level l.orders h.0 e)
  where
    empty_level :
        (os : List RestingOrder)
        → (os ≡ [] → ⊥)
        → Path (Option RestingOrder) (elim os [ [] ↦ none | o ∷ _ ↦ some o ]) none
        → ⊥
    empty_level [] ne e = ne refl
    empty_level (o ∷ os) ne e = cc

pub depth-empty :
    (s : Side) (q : ℤ) (b : Book) → WellFormed b → peek_best s b ≡ none → depth s q b ≡ 0
unfolding peek_best
depth-empty s q b v e = no_orders s q (levels_of s b) (side-Ordered b v s) e

pub record Crossing (price : ℤ) (bid ask : RestingOrder) (b : Book) : Type 0 where
  pub bid_best : peek_best buy b ≡ some bid
  pub ask_best : peek_best sell b ≡ some ask
  pub bid_within : within buy price bid.price ≡ true
  pub ask_within : within sell price ask.price ≡ true

pub crossing_pair-Crossing :
    (price : ℤ) (b : Book) {bid ask : RestingOrder}
    → crossing_pair price b ≡ some (bid, ask)
    → Crossing price bid ask b
unfolding crossing_pair
crossing_pair-Crossing price b {bid} {ask} e = elim (Option-cases (peek_best buy b)) [
  | inl eb ↦ absurd (ground arith)
  | inr (o, eb) ↦ elim (Option-cases (peek_best sell b)) [
    | inl ea ↦ absurd (ground arith)
    | inr (x, ea) ↦ record {
      bid_best = ground arith;
      ask_best = ground arith;
      bid_within = ground arith;
      ask_within = ground arith;
    }
  ]
]

crossing_pair-test :
    (price : ℤ) (bid ask : RestingOrder) (b : Book)
    → peek_best buy b ≡ some bid
    → peek_best sell b ≡ some ask
    → crossing_pair price b
      ≡ (if ltb_ℤ bid.price price || ltb_ℤ price ask.price then none else some (bid, ask))
unfolding crossing_pair
crossing_pair-test price bid ask b eb ea = rw (eb, crossing_pair, ea) refl

high_of :
    {A : Type 0} (x : A) (low high : Bool)
    → Path (Option A) (if low || high then none else some x) none
    → low ≡ false
    → not high ≡ false
high_of x low high e l = ground arith

-- Without a pair, the price reaches nothing on one of the sides.
pub crossing_pair-over :
    (price : ℤ) (b : Book)
    → WellFormed b
    → crossing_pair price b ≡ none
    → (depth buy price b ≡ 0) ⊎ (depth sell price b ≡ 0)
unfolding crossing_pair
crossing_pair-over price b v e = elim (Option-cases (peek_best buy b)) [
  | inl eb ↦ inl (depth-empty buy price b v eb)
  | inr (bid, eb) ↦ elim (Option-cases (peek_best sell b)) [
    | inl ea ↦ inr (depth-empty sell price b v ea)
    | inr (ask, ea) ↦ elim (Bool-cases (ltb_ℤ bid.price price)) [
      | inl low ↦ inl (depth-best buy price bid b v eb (ground arith))
      | inr low ↦ inr (
          depth-best sell price ask b v ea
            (high_of (bid, ask) _ _ (sym (crossing_pair-test price bid ask b eb ea) ∙ e) low))
    ]
  ]
]
