-- ===== src/Stops/Trailing.antt =====
-- The ratchet of the trailing stops, StopBook::updateTrailing of
-- venue/include/flox-venue/stop_book.h.
use venue_core.Prelude.{
  ◌≡◌, refl, ◌⊎◌, inl, inr, ◌||◌, Bool, true, Bool-cases, List, [], ◌∷◌, if-split, if◌then◌else◌,
  arith,
}
use venue_core.Prelude.Int.{ℤ, pos, ltb_ℤ, eqb_ℤ, ◌+ℤ◌, ◌-ℤ◌, ◌≤ℤ◌, eqb_ℤ→eq}
use venue_core.Stops.{Pending, StopBook, is_buy, ratchet, ratchet_all, update_trailing}

-- The order is the same; an armed trigger has not moved away from the market; and it is no
-- further from `last` than the order's offset.
unfoldable pub Tightened : ℤ → Pending → Pending → Type 0
Tightened last s s' =
    (s'.order ≡ s.order)
    × (if is_buy s.order.side
        then ((s.trigger ≡ pos 0) ⊎ (s'.trigger ≤ℤ s.trigger))
          × (s'.trigger ≤ℤ last +ℤ s.order.trailing_offset)
        else ((s.trigger ≡ pos 0) ⊎ (s.trigger ≤ℤ s'.trigger))
          × (last -ℤ s.order.trailing_offset ≤ℤ s'.trigger))

unfoldable pub AllTightened : ℤ → List Pending → List Pending → Type 0
unfolding Tightened
AllTightened last [] [] = Unit
AllTightened last (s ∷ rest) (s' ∷ rest') = Tightened last s s' × AllTightened last rest rest'
AllTightened last _ _ = ⊥

-- A trigger that is moved is not set yet or passes its test.
armed :
    (t : ℤ) (b : Bool) (P : Type 0)
    → (eqb_ℤ t (pos 0) || b) ≡ true
    → (b ≡ true → P)
    → (t ≡ pos 0) ⊎ P
armed t b P h f = elim (Bool-cases (eqb_ℤ t (pos 0))) [
  | inl e ↦ inl (eqb_ℤ→eq t (pos 0) e)
  | inr e ↦ inr (f (ground arith))
]

ratchet-Tightened : (last : ℤ) (s : Pending) → Tightened last s (ratchet last s)
unfolding Tightened
ratchet-Tightened last s =
    let off = s.order.trailing_offset in
    if-split (Tightened last s) (is_buy s.order.side)
      (λ e.
        if-split (Tightened last s) (eqb_ℤ s.trigger (pos 0) || ltb_ℤ (last +ℤ off) s.trigger)
          (λ e1. (
            refl,
            rw e (
              armed s.trigger (ltb_ℤ (last +ℤ off) s.trigger) _ e1 (λ h. ground arith),
              omega arith,
            ),
          ))
          (λ e1. (refl, rw e (inr (omega arith), ground arith))))
      (λ e.
        if-split (Tightened last s) (eqb_ℤ s.trigger (pos 0) || ltb_ℤ s.trigger (last -ℤ off))
          (λ e1. (
            refl,
            rw e (
              armed s.trigger (ltb_ℤ s.trigger (last -ℤ off)) _ e1 (λ h. ground arith),
              omega arith,
            ),
          ))
          (λ e1. (refl, rw e (inr (omega arith), ground arith))))

ratchet_all-AllTightened : (last : ℤ) (m : List Pending) → AllTightened last m (ratchet_all last m)
unfolding AllTightened
ratchet_all-AllTightened last [] = tt
ratchet_all-AllTightened last (s ∷ rest) =
    (ratchet-Tightened last s, ratchet_all-AllTightened last rest)

-- Whatever the last price, an update keeps every trailing stop in its place with its order; a
-- trigger already set has not moved away from the market, and no trigger is further from the
-- last price than the order's offset. The other stops and the location table stay as they are.
pub update_trailing-AllTightened :
    (last : ℤ) (b : StopBook)
    → (let b' = update_trailing last b in
        AllTightened last b.trailing b'.trailing
        × (b'.up ≡ b.up)
        × (b'.down ≡ b.down)
        × (b'.loc ≡ b.loc))
unfolding update_trailing
update_trailing-AllTightened last b = (ratchet_all-AllTightened last b.trailing, refl, refl, refl)
