-- ===== src/Pegs/Target.antt =====
-- The target of a peg, venue/include/flox-venue/engine/pegs.h, and the opposite touch.
use venue_core.Prelude.{
  ◌≡◌, Bool, true, not, ◌&&◌, if-split, Bool-cases, inl, inr, Option, some, arith, if◌then◌else◌,
}
use venue_core.Prelude.Int.{
  ℤ, pos, ◌+ℤ◌, ◌-ℤ◌, ltb_ℤ, leb_ℤ, ◌≤ℤ◌, ◌<ℤ◌, +ℤ_parts, -ℤ_parts, pos_parts,
}
use venue_core.Types.{Side, PegRef, buy, sell}
use venue_core.Pegs.{Market, step, reference, align, never_cross, clamp_low, clamp_high, target_raw}

abbrev pub opposite : Side → Market → Option ℤ
opposite buy m = m.ask_raw
opposite sell m = m.bid_raw

-- The price is on its own side of the touch `p`.
abbrev pub is_away : Side → ℤ → ℤ → Bool
is_away buy p target = ltb_ℤ target p
is_away sell p target = ltb_ℤ p target

-- The band ends at the touch `p` or before it.
abbrev pub is_banded : Side → Market → ℤ → Bool
is_banded buy m p = ltb_ℤ (pos 0) m.min_price_raw && leb_ℤ p m.min_price_raw
is_banded sell m p = ltb_ℤ (pos 0) m.max_price_raw && leb_ℤ m.max_price_raw p

-- A band that is set at both ends has them in order.
abbrev pub Ordered : Market → Type 0
Ordered m = pos 0 <ℤ m.min_price_raw → pos 0 <ℤ m.max_price_raw → m.min_price_raw ≤ℤ m.max_price_raw

step-pos : (m : Market) → pos 0 <ℤ step m
unfolding step
step-pos m =
    if-split (λ s. pos 0 <ℤ s) (ltb_ℤ (pos 0) m.tick_raw) (λ e. ground arith)
      (λ e. ground (arith, pos_parts 0, pos_parts 1))

back_off : (p t s : ℤ) → pos 0 <ℤ s → ltb_ℤ (if leb_ℤ p t then p -ℤ s else t) p ≡ true
back_off p t s h =
    if-split (λ x. ltb_ℤ x p ≡ true) (leb_ℤ p t) (λ e. ground (arith, pos_parts 0, -ℤ_parts p s))
      (λ e. ground arith)

step_up : (p t s : ℤ) → pos 0 <ℤ s → ltb_ℤ p (if leb_ℤ t p then p +ℤ s else t) ≡ true
step_up p t s h =
    if-split (λ x. ltb_ℤ p x ≡ true) (leb_ℤ t p) (λ e. ground (arith, pos_parts 0, +ℤ_parts p s))
      (λ e. ground arith)

never_cross-away :
    (side : Side) (m : Market) (p t : ℤ)
    → opposite side m ≡ some p
    → is_away side p (never_cross side m t) ≡ true
unfolding never_cross
never_cross-away buy m p t h = rw (h, never_cross) (back_off p t (step m) (step-pos m))
never_cross-away sell m p t h = rw (h, never_cross) (step_up p t (step m) (step-pos m))

low-buy : (m : Market) (p t : ℤ) → t <ℤ p → is_away buy p (clamp_low m t) ≡ not (is_banded buy m p)
unfolding clamp_low
low-buy m p t h =
    if-split (λ s. ltb_ℤ s p ≡ not (is_banded buy m p))
      (ltb_ℤ (pos 0) m.min_price_raw && ltb_ℤ t m.min_price_raw) (λ e. ground arith)
      (λ e. ground arith)

low-sell : (m : Market) (p t : ℤ) → p <ℤ t → p <ℤ clamp_low m t
unfolding clamp_low
low-sell m p t h =
    if-split (λ s. p <ℤ s) (ltb_ℤ (pos 0) m.min_price_raw && ltb_ℤ t m.min_price_raw)
      (λ e. ground arith) (λ e. h)

high-sell :
    (m : Market) (p t : ℤ) → p <ℤ t → is_away sell p (clamp_high m t) ≡ not (is_banded sell m p)
unfolding clamp_high
high-sell m p t h =
    if-split (λ s. ltb_ℤ p s ≡ not (is_banded sell m p))
      (ltb_ℤ (pos 0) m.max_price_raw && ltb_ℤ m.max_price_raw t) (λ e. ground arith)
      (λ e. ground arith)

-- Between the ends that are set.
abbrev pub Within : Market → ℤ → Type 0
Within m t =
    (pos 0 <ℤ m.min_price_raw → m.min_price_raw ≤ℤ t)
    × (pos 0 <ℤ m.max_price_raw → t ≤ℤ m.max_price_raw)

clamp_low-floor : (m : Market) (t : ℤ) → pos 0 <ℤ m.min_price_raw → m.min_price_raw ≤ℤ clamp_low m t
unfolding clamp_low
clamp_low-floor m t h =
    if-split (λ s. m.min_price_raw ≤ℤ s) (ltb_ℤ (pos 0) m.min_price_raw && ltb_ℤ t m.min_price_raw)
      (λ e. omega arith) (λ e. ground arith)

clamp_high-Within :
    (m : Market) (t : ℤ)
    → Ordered m
    → (pos 0 <ℤ m.min_price_raw → m.min_price_raw ≤ℤ t)
    → Within m (clamp_high m t)
unfolding clamp_high
clamp_high-Within m t order low =
    if-split (Within m) (ltb_ℤ (pos 0) m.max_price_raw && ltb_ℤ m.max_price_raw t)
      (λ e. ((λ h. order h (ground arith)), (λ h. omega arith))) (λ e. (low, (λ h. ground arith)))

high-buy :
    (m : Market) (p t : ℤ)
    → Ordered m
    → (pos 0 <ℤ m.min_price_raw → m.min_price_raw ≤ℤ t)
    → is_away buy p t ≡ not (is_banded buy m p)
    → is_away buy p (clamp_high m t) ≡ not (is_banded buy m p)
unfolding clamp_high
high-buy m p t order low h =
    if-split (λ s. ltb_ℤ s p ≡ not (is_banded buy m p))
      (ltb_ℤ (pos 0) m.max_price_raw && ltb_ℤ m.max_price_raw t)
      (λ e. elim (Bool-cases (is_banded buy m p)) [
        | inl held ↦
            let ordered : m.min_price_raw ≤ℤ m.max_price_raw =
              order (ground (arith, held)) (ground (arith, e)) in
            ground arith
        | inr free ↦ ground arith
      ])
      (λ e. h)

clamps-away :
    (side : Side) (m : Market) (p t : ℤ)
    → Ordered m
    → is_away side p t ≡ true
    → is_away side p (clamp_high m (clamp_low m t)) ≡ not (is_banded side m p)
clamps-away buy m p t order h =
    high-buy m p (clamp_low m t) order (clamp_low-floor m t) (low-buy m p t (ground (arith, h)))
clamps-away sell m p t order h = high-sell m p (clamp_low m t) (low-sell m p t (ground (arith, h)))

-- Where the opposite side of the book has the touch `p`, the target of a peg stays on its own side
-- of it exactly if the price band, whose ends are in order, does not end at `p` or before it.
pub target_raw-away :
    (side : Side) (ref : PegRef) (offset : ℤ) (m : Market) (p r : ℤ)
    → reference ref m ≡ some r
    → opposite side m ≡ some p
    → Ordered m
    → is_away side p (target_raw side ref offset m) ≡ not (is_banded side m p)
unfolding target_raw
target_raw-away side ref offset m p r known across order =
    rw (known, target_raw)
      (clamps-away side m p (never_cross side m (align m.tick_raw (r +ℤ offset))) order
        (never_cross-away side m p (align m.tick_raw (r +ℤ offset)) across))

-- With the ends of the price band in order, the target of a peg that has a reference lies between
-- those that are set.
pub target_raw-Within :
    (side : Side) (ref : PegRef) (offset : ℤ) (m : Market) (r : ℤ)
    → reference ref m ≡ some r
    → Ordered m
    → Within m (target_raw side ref offset m)
unfolding target_raw
target_raw-Within side ref offset m r known order =
    let crossed : ℤ = never_cross side m (align m.tick_raw (r +ℤ offset)) in
    rw (known, target_raw)
      (clamp_high-Within m (clamp_low m crossed) order (clamp_low-floor m crossed))
