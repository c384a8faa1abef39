-- ===== src/Auction/Price.antt =====
-- The clearing price against all other prices, MatchingEngine::runAuction in
-- venue/include/flox-venue/engine/session.inl.
use venue_core.Prelude.{
  ℕ, ◌≤◌, ◌<◌, ◌≡◌, refl, ◌⊎◌, inl, inr, true, false, if-split, Option, none, some, List, [], ◌∷◌,
  All, ◌==◌, arith,
}
use venue_core.Prelude.Int.{ℤ}
use venue_core.Auction.{Clearing, Totals, executable, imbalance_at, beats, weigh, weigh_all}

abbrev pub volume : Option Clearing → ℕ
volume none = 0
volume (some c) = c.exec

abbrev left_over : Option Clearing → ℕ
left_over none = 0
left_over (some c) = c.imbalance

module _ (bids asks : Totals) where
  -- A price does no better than the choice: it executes nothing, or less, or as much with no
  -- smaller imbalance.
  unfoldable pub Beaten : Option Clearing → ℤ → Type 0
  unfolding executable imbalance_at
  Beaten best p =
      (executable bids asks p ≡ 0)
      ⊎ (executable bids asks p < volume best)
      ⊎ ((executable bids asks p ≡ volume best) × (left_over best ≤ imbalance_at bids asks p))

  -- The figures of the choice are those of its price.
  unfoldable pub Right : Option Clearing → Type 0
  unfolding executable imbalance_at
  Right none = Unit
  Right (some c) =
      (c.exec ≡ executable bids asks c.price)
      × (c.imbalance ≡ imbalance_at bids asks c.price)
      × (0 < c.exec)

  weigh-old : (best : Option Clearing) (p q : ℤ) → Beaten best q → Beaten (weigh bids asks best p) q
  unfolding Beaten weigh
  weigh-old best p q h =
      if-split (λ r. Beaten r q) (executable bids asks p == 0) (λ e. h)
        (λ e.
          if-split (λ r. Beaten r q)
            (beats (executable bids asks p) (imbalance_at bids asks p) best)
            (λ e1. better best h e1) (λ e1. h))
    where
      better :
          (b : Option Clearing)
          → Beaten b q
          → beats (executable bids asks p) (imbalance_at bids asks p) b ≡ true
          → Beaten
              (some (record {
                price = p;
                exec = executable bids asks p;
                imbalance = imbalance_at bids asks p;
              }))
              q
      better none h e = ground arith
      better (some b) h e = ground arith

  weigh-new : (best : Option Clearing) (p : ℤ) → Beaten (weigh bids asks best p) p
  unfolding Beaten weigh
  weigh-new best p =
      if-split (λ r. Beaten r p) (executable bids asks p == 0) (λ e. inl (ground arith))
        (λ e.
          if-split (λ r. Beaten r p)
            (beats (executable bids asks p) (imbalance_at bids asks p) best)
            (λ e1. inr (inr (refl, omega arith))) (λ e1. old best e1))
    where
      old :
          (b : Option Clearing)
          → beats (executable bids asks p) (imbalance_at bids asks p) b ≡ false
          → Beaten b p
      old none e = ground arith
      old (some b) e = ground arith

  weigh-Right : (best : Option Clearing) (p : ℤ) → Right best → Right (weigh bids asks best p)
  unfolding Right weigh
  weigh-Right best p h =
      if-split Right (executable bids asks p == 0) (λ e. h)
        (λ e.
          if-split Right (beats (executable bids asks p) (imbalance_at bids asks p) best)
            (λ e1. (refl, refl, ground arith)) (λ e1. h))

  weigh_all-old :
      (prices : List ℤ) (best : Option Clearing) (q : ℤ)
      → Beaten best q
      → Beaten (weigh_all bids asks best prices) q
  unfolding weigh_all
  weigh_all-old [] best q h = h
  weigh_all-old (p ∷ prices) best q h =
      weigh_all-old prices (weigh bids asks best p) q (weigh-old best p q h)

  pub weigh_all-Beaten :
      (prices : List ℤ) (best : Option Clearing)
      → All (Beaten (weigh_all bids asks best prices)) prices
  unfolding weigh_all
  weigh_all-Beaten [] best = tt
  weigh_all-Beaten (p ∷ prices) best = (
    weigh_all-old prices (weigh bids asks best p) p (weigh-new best p),
    weigh_all-Beaten prices (weigh bids asks best p),
  )

  pub weigh_all-Right :
      (prices : List ℤ) (best : Option Clearing)
      → Right best
      → Right (weigh_all bids asks best prices)
  unfolding weigh_all
  weigh_all-Right [] best h = h
  weigh_all-Right (p ∷ prices) best h =
      weigh_all-Right prices (weigh bids asks best p) (weigh-Right best p h)
