-- ===== src/Auction/Optimum.antt =====
-- Prices that are no level of the book beside the candidates, MatchingEngine::runAuction in
-- venue/include/flox-venue/engine/session.inl.
use venue_core.Prelude.{
  ℕ, ◌≤◌, ◌≡◌, refl, sym, subst, ◌⊎◌, inl, inr, Bool, true, false, if◌then◌else◌, Bool-cases,
  Option, none, List, [], ◌∷◌, All-every, All, All-imp, arith,
}
use venue_core.Prelude.Int.{ℤ, ltb_ℤ, eqb_ℤ, ◌≤ℤ◌, ◌<ℤ◌, eqb_ℤ→eq}
use venue_core.Auction.{
  Clearing, Totals, demand, supply, executable, insert_price, insert_prices, candidates, weigh_all,
  clearing_price,
}
use venue_core.Auction.Price.{volume, Beaten, Right, weigh_all-Beaten, weigh_all-Right}

insert_price-All :
    (P : ℤ → Type 0) (p : ℤ) (prices : List ℤ) → All P (insert_price p prices) → P p × All P prices
insert_price-All P p [] h = (h.0, tt)
insert_price-All P p (q ∷ rest) h = split (ltb_ℤ p q) (eqb_ℤ p q) (insert_price-All P p rest) refl h
  where
    split :
        (less same : Bool)
        → (All P (insert_price p rest) → P p × All P rest)
        → eqb_ℤ p q ≡ same
        → All P (if less then p ∷ q ∷ rest else if same then q ∷ rest else q ∷ insert_price p rest)
        → P p × All P (q ∷ rest)
    split true same ih e h = (h.0, (h.1.0, h.1.1))
    split false true ih e h = (subst P (sym (eqb_ℤ→eq p q e)) h.0, h)
    split false false ih e h = ((ih h.1).0, (h.0, (ih h.1).1))

insert_prices-All :
    (P : ℤ → Type 0) (levels : Totals) (prices : List ℤ)
    → All P (insert_prices levels prices)
    → All (λ (l : ℤ × ℕ). P l.0) levels × All P prices
insert_prices-All P [] prices h = (tt, h)
insert_prices-All P ((p, n) ∷ levels) prices h =
    let here = insert_price-All P p (insert_prices levels prices) h in
    let rest = insert_prices-All P levels prices here.1 in ((here.0, rest.0), rest.1)

-- A price of the list at or above q with none of the list between them.
abbrev Above : (ℤ → Type 0) → ℤ → Totals → ℤ → Type 0
Above P q bids c = P c × (q ≤ℤ c) × All (λ (l : ℤ × ℕ). (l.0 <ℤ q) ⊎ (c ≤ℤ l.0)) bids

lower : (q l c p : ℤ) → p ≤ℤ c → (l <ℤ q) ⊎ (c ≤ℤ l) → (l <ℤ q) ⊎ (p ≤ℤ l)
lower q l c p le (inl lt) = inl lt
lower q l c p le (inr ge) = inr (omega (arith, le, ge))

ceiling_bid :
    (P : ℤ → Type 0) (q : ℤ) (bids : Totals)
    → All (λ (l : ℤ × ℕ). P l.0) bids
    → All (λ (l : ℤ × ℕ). l.0 <ℤ q) bids ⊎ ((c : ℤ) × Above P q bids c)
ceiling_bid P q [] h = inl tt
ceiling_bid P q ((p, n) ∷ bids) h = elim (ceiling_bid P q bids h.1) [
  | inl below ↦ elim (Bool-cases (ltb_ℤ p q)) [
    | inl e ↦ inl (ground arith, below)
    | inr e ↦
        inr (p, (h.0, ground arith, (inr (omega arith), All-imp _ _ bids (λ l lt. inl lt) below)))
  ]
  | inr (c, (pc, above, gap)) ↦ elim (Bool-cases (ltb_ℤ p q)) [
    | inl e ↦ inr (c, (pc, above, (inl (ground arith), gap)))
    | inr e ↦ elim (Bool-cases (ltb_ℤ p c)) [
      | inl e1 ↦ inr (
        p,
        (
          h.0,
          ground arith,
          (inr (omega arith), All-imp _ _ bids (λ l g. lower q l.0 c p (ground arith) g) gap),
        ),
      )
      | inr e1 ↦ inr (c, (pc, above, (inr (ground arith), gap)))
    ]
  ]
]

demand-gap :
    (q c : ℤ) (bids : Totals)
    → q ≤ℤ c
    → All (λ (l : ℤ × ℕ). (l.0 <ℤ q) ⊎ (c ≤ℤ l.0)) bids
    → demand q bids ≡ demand c bids
unfolding demand
demand-gap q c [] le h = refl
demand-gap q c ((p, n) ∷ bids) le h = ground (arith, demand-gap q c bids le h.1)

demand-below : (q : ℤ) (bids : Totals) → All (λ (l : ℤ × ℕ). l.0 <ℤ q) bids → demand q bids ≡ 0
unfolding demand
demand-below q [] h = refl
demand-below q ((p, n) ∷ bids) h = ground (arith, demand-below q bids h.1)

supply-le : (q c : ℤ) (asks : Totals) → q ≤ℤ c → supply q asks ≤ supply c asks
unfolding supply
supply-le q c [] le = omega arith
supply-le q c ((p, n) ∷ asks) le = ground (arith, supply-le q c asks le)

-- No price at all executes more than the best candidate.
executable-volume :
    (bids asks : Totals) (best : Option Clearing) (q : ℤ)
    → All (λ (l : ℤ × ℕ). Beaten bids asks best l.0) bids
    → executable bids asks q ≤ volume best
unfolding Beaten executable
executable-volume bids asks best q h = elim (ceiling_bid (Beaten bids asks best) q bids h) [
  | inl below ↦ ground (arith, demand-below q bids below)
  | inr (c, (pc, above, gap)) ↦
      ground (arith, pc, demand-gap q c bids above gap, supply-le q c asks above)
]

-- The clearing price has the figures of its price, and trades something there; no price at all, be
-- it a level of the book or not, executes more; no level executes as much with a smaller
-- imbalance; and when no price is chosen, nothing executes at any.
pub clearing_price-optimal :
    (bids asks : Totals) (q : ℤ)
    → Right bids asks (clearing_price bids asks)
      × (executable bids asks q ≤ volume (clearing_price bids asks))
      × All (λ (l : ℤ × ℕ). Beaten bids asks (clearing_price bids asks) l.0) bids
      × All (λ (l : ℤ × ℕ). Beaten bids asks (clearing_price bids asks) l.0) asks
unfolding clearing_price Right candidates executable Beaten demand supply
clearing_price-optimal [] asks q =
    (tt, ground arith, tt, All-every _ asks (λ l. inl (ground arith)))
clearing_price-optimal (b ∷ bids) [] q =
    (tt, ground arith, All-every _ (b ∷ bids) (λ l. inl (ground arith)), tt)
clearing_price-optimal (b ∷ bids) (a ∷ asks) q =
    let wanted : Totals = b ∷ bids in
    let offers : Totals = a ∷ asks in
    let best = weigh_all wanted offers none (candidates wanted offers) in
    let all =
      insert_prices-All (Beaten wanted offers best) wanted (insert_prices offers [])
        (weigh_all-Beaten wanted offers (candidates wanted offers) none) in
    (
      weigh_all-Right wanted offers (candidates wanted offers) none tt,
      executable-volume wanted offers best q all.0,
      all.0,
      (insert_prices-All (Beaten wanted offers best) offers [] all.1).0,
    )
