-- ===== src/Auction/Outcome.antt =====
-- A whole auction, MatchingEngine::runAuction of venue/include/flox-venue/engine/session.inl: the
-- clearing price and the uncross at it.
use venue_core.Prelude.{
  subst, ℕ, ◌+◌, ◌≤◌, ◌<◌, ◌≡◌, refl, sym, ap₂, ◌∙◌, ◌⊎◌, ltb, if◌then◌else◌, Option-cases, inl,
  inr, some, List, [], ◌∷◌, sum_by, arith,
}
use venue_core.Prelude.Int.{ℤ}
use venue_core.Types.{buy, sell, RestingOrder}
use venue_core.Book.Levels.{orders, total_of}
use venue_core.Book.Invariant.{WellFormed}
use venue_core.Book.{Book, levels}
use venue_core.Auction.{Clearing, Totals, executable, clearing_price}
use venue_core.Auction.Price.{volume, Right}
use venue_core.Auction.Optimum.{clearing_price-optimal}
use venue_core.Auction.Uncross.{Auctioneer, Rules, run_auction}
use venue_core.Auction.Depth.{reachable, depth, demand-depth, supply-depth}
use venue_core.Auction.Volume.{printed, Plain, uncross-Uncrossed}

abbrev both : ℕ → ℕ → ℕ
both bought sold = if ltb bought sold then bought else sold

executable-depth :
    (q : ℤ) (b : Book)
    → WellFormed b
    → executable (levels buy b) (levels sell b) q ≡ both (depth buy q b) (depth sell q b)
unfolding executable
executable-depth q b v = ap₂ both (demand-depth q b v) (supply-depth q b v)

depth-le : (q : ℤ) (os : List RestingOrder) → sum_by (reachable buy q) os ≤ sum_by total_of os
depth-le q [] = omega arith
depth-le q (o ∷ os) = ground (arith, depth-le q os)

-- The book is not crossed at a price: the price does not reach orders of both sides.
abbrev pub NotCrossed : ℤ → Book → Type 0
NotCrossed q b = (depth buy q b ≡ 0) ⊎ (depth sell q b ≡ 0)

nothing_left :
    (bought sold bought' sold' n : ℕ)
    → (bought' ≡ 0) ⊎ (bought ≡ bought' + n)
    → (sold' ≡ 0) ⊎ (sold ≡ sold' + n)
    → both bought sold ≤ n
    → (bought' ≡ 0) ⊎ (sold' ≡ 0)
nothing_left bought sold bought' sold' n hb hs le = ground arith

all_traded :
    (bought sold bought' sold' n : ℕ)
    → bought ≡ bought' + n
    → sold ≡ sold' + n
    → (bought' ≡ 0) ⊎ (sold' ≡ 0)
    → both bought sold ≡ n
all_traded bought sold bought' sold' n hb hs over = ground arith

Right-exec :
    (bids asks : Totals) (best : Clearing)
    → Right bids asks (some best)
    → best.exec ≡ executable bids asks best.price
unfolding Right
Right-exec bids asks best h = h.0

-- With no fill limits, no self-trade prevention and more fuel than the quantity of the bids, an
-- auction on a well-formed book ends; it prints in all exactly the volume of the clearing price,
-- which no price exceeds, and it leaves a well-formed book that is crossed at no price.
pub run_auction-NotCrossed :
    (fuel : ℕ) (rules : Rules) (st : Auctioneer) (q : ℤ)
    → WellFormed st.book
    → Plain rules st
    → sum_by total_of (orders st.book.bids) < fuel
    → (st' : Auctioneer) × (run_auction fuel rules st ≡ some st')
      × WellFormed st'.book
      × (printed st'.events
          ≡ printed st.events + volume (clearing_price (levels buy st.book) (levels sell st.book)))
      × (executable (levels buy st.book) (levels sell st.book) q
          ≤ volume (clearing_price (levels buy st.book) (levels sell st.book)))
      × NotCrossed q st'.book
unfolding run_auction
run_auction-NotCrossed fuel rules st q v plain h =
    let bids = levels buy st.book in
    let asks = levels sell st.book in
    let optimal = clearing_price-optimal bids asks q in
    let reached : both (depth buy q st.book) (depth sell q st.book)
        ≤ volume (clearing_price bids asks) =
      rw (sym (executable-depth q st.book v)) optimal.1 in
    elim (Option-cases (clearing_price bids asks)) [
      | inl e ↦ (
        st,
        rw (e, run_auction) refl,
        v,
        rw e (omega arith),
        optimal.1,
        nothing_left (depth buy q st.book) (depth sell q st.book) (depth buy q st.book)
            (depth sell q st.book) 0 (inr (omega arith)) (inr (omega arith)) (rw e at reached),
      )
      | inr (best, e) ↦
          let right : Right bids asks (some best) = subst (Right bids asks) e optimal.0 in
          let (st', runs, done) =
            uncross-Uncrossed fuel rules best.price st v plain
              (omega (arith, h, depth-le best.price (orders st.book.bids))) in
          let spent = done.all_printed in
          let traded : done.traded_in_all ≡ best.exec =
            sym (
              all_traded (depth buy best.price st.book) (depth sell best.price st.book)
                (depth buy best.price st'.book) (depth sell best.price st'.book) done.traded_in_all
                spent.bought spent.sold done.over)
            ∙ sym (executable-depth best.price st.book v)
            ∙ sym (Right-exec bids asks best right) in
          (
            st',
            rw (e, run_auction) runs,
            spent.well_formed,
            rw e (omega (arith, spent.volume, traded)),
            optimal.1,
            nothing_left (depth buy q st.book) (depth sell q st.book) (depth buy q st'.book)
                (depth sell q st'.book) done.traded_in_all (spent.spent buy q) (spent.spent sell q)
                (rw traded (rw e at reached)),
          )
    ]
