-- ===== src/Auction.antt =====
-- The clearing price of an auction, the first half of MatchingEngine::runAuction in
-- venue/include/flox-venue/engine/session.inl. A sum of quantities is a natural number without the
-- end of int64.
use venue_core.Prelude.{
  ℕ, ◌+◌, ◌-◌, ◌==◌, ltb, Bool, true, false, not, ◌&&◌, ◌||◌, if◌then◌else◌, Option, none, some,
  List, [], ◌∷◌,
}
use venue_core.Prelude.Int.{ℤ, ltb_ℤ, eqb_ℤ}
pub mod Stp
pub mod Uncross
pub mod Depth
pub mod Front
pub mod Volume
pub mod Outcome
pub mod Shrink
pub mod Ends
pub mod Price
pub mod Optimum

-- The best candidate so far: bestP, bestExec and bestImb.
pub record Clearing : Type 0 where
  pub price : ℤ
  pub exec : ℕ
  pub imbalance : ℕ

-- The levels of a side, each with its displayed and hidden total.
abbrev pub Totals : Type 0
Totals = List (ℤ × ℕ)

unfoldable pub demand : ℤ → Totals → ℕ
demand p [] = 0
demand p ((q, n) ∷ bids) = let rest = demand p bids in if not (ltb_ℤ q p) then n + rest else rest

unfoldable pub supply : ℤ → Totals → ℕ
supply p [] = 0
supply p ((q, n) ∷ asks) = let rest = supply p asks in if not (ltb_ℤ p q) then n + rest else rest

-- What trades at a price, and what is left over there.
unfoldable pub executable : Totals → Totals → ℤ → ℕ
unfolding demand supply
executable bids asks p =
    if ltb (demand p bids) (supply p asks) then demand p bids else supply p asks

unfoldable pub imbalance_at : Totals → Totals → ℤ → ℕ
unfolding demand supply
imbalance_at bids asks p =
    if ltb (demand p bids) (supply p asks)
    then supply p asks - demand p bids
    else demand p bids - supply p asks

-- Sorted and without repetitions.
abbrev pub insert_price : ℤ → List ℤ → List ℤ
insert_price p [] = p ∷ []
insert_price p (q ∷ rest) =
    let rest' = insert_price p rest in
    if ltb_ℤ p q then p ∷ q ∷ rest else if eqb_ℤ p q then q ∷ rest else q ∷ rest'

abbrev pub insert_prices : Totals → List ℤ → List ℤ
insert_prices [] prices = prices
insert_prices ((p, n) ∷ levels) prices = insert_price p (insert_prices levels prices)

unfoldable pub candidates : Totals → Totals → List ℤ
candidates bids asks = insert_prices bids (insert_prices asks [])

abbrev pub beats : ℕ → ℕ → Option Clearing → Bool
beats exec imbalance none = true
beats exec imbalance (some best) =
    ltb best.exec exec || (exec == best.exec && ltb imbalance best.imbalance)

unfoldable pub weigh : Totals → Totals → Option Clearing → ℤ → Option Clearing
unfolding executable imbalance_at
weigh bids asks best p =
    if executable bids asks p == 0
    then best
    else if beats (executable bids asks p) (imbalance_at bids asks p) best
    then some
        (record { price = p; exec = executable bids asks p; imbalance = imbalance_at bids asks p })
    else best

unfoldable pub weigh_all : Totals → Totals → Option Clearing → List ℤ → Option Clearing
unfolding weigh
weigh_all bids asks best [] = best
weigh_all bids asks best (p ∷ prices) = weigh_all bids asks (weigh bids asks best p) prices

-- No price if a side is empty or nothing trades at any candidate.
unfoldable pub clearing_price : Totals → Totals → Option Clearing
unfolding candidates weigh_all
clearing_price [] asks = none
clearing_price (b ∷ bids) [] = none
clearing_price (b ∷ bids) (a ∷ asks) =
    weigh_all (b ∷ bids) (a ∷ asks) none (candidates (b ∷ bids) (a ∷ asks))
