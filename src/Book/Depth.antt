-- ===== src/Book/Depth.antt =====
-- The depth walk of venue/include/flox-venue/matching_book.h and the orders it counts.
use venue_core.Prelude.{
  ℕ, ◌≡◌, refl, true, false, List, [], ◌∷◌, arith, Bool-cases, inl, inr, sym, subst, Bool, not,
  ◌&&◌, ◌||◌, if◌then◌else◌, sum_by, sum_by-append, All,
}
use venue_core.Prelude.Int.{ℤ}
use venue_core.Types.{Side, RestingOrder, opposite}
use venue_core.Book.Levels.{Level, better, orders, total_of}
use venue_core.Book.Order.{Ordered, Placed, Beyond, Beyond-trans}
use venue_core.Book.Invariant.{WellFormed, side-Ordered}
use venue_core.Book.{Book, levels_of, scan_orders, scan_levels, available_within_excl}

-- Whether a taker with this limit would trade with a resting order at a price.
abbrev pub reaches : Side → ℤ → Bool → ℤ → Bool
reaches resting limit is_market p = is_market || not (better resting limit p)

-- What an order adds to the depth that a taker can sweep.
abbrev pub offered : Side → ℤ → Bool → (RestingOrder → Bool) → RestingOrder → ℕ
offered resting limit is_market skip o =
    if reaches resting limit is_market o.price && not (skip o) then total_of o else 0

and_left : (x y : Bool) → (not x && y) ≡ true → x ≡ false
and_left x y h = ground arith

and_right : (x y : Bool) → (not x && y) ≡ true → y ≡ true
and_right x y h = ground arith

module _ (s : Side) (limit : ℤ) (m : Bool) (skip : RestingOrder → Bool) where
  abbrev walk : Unit {0} → RestingOrder → Bool × Unit {0}
  walk st o = (skip o, st)

  at_order :
      (p : ℤ) (o : RestingOrder) (x : Bool)
      → Placed s p o
      → reaches s limit m p ≡ x
      → reaches s limit m o.price ≡ x
  at_order p o x v h = subst (λ q. reaches s limit m q ≡ x) (sym v.0) h

  scan_orders-offered :
      (st : Unit {0}) (p : ℤ) (os : List RestingOrder)
      → reaches s limit m p ≡ true
      → All (Placed s p) os
      → (scan_orders walk st os).0 ≡ sum_by (offered s limit m skip) os
  unfolding scan_orders
  scan_orders-offered st p [] h v = refl
  scan_orders-offered st p (o ∷ os) h v =
      rw (at_order p o true v.0 h) (ground (arith, scan_orders-offered st p os h v.1))

  unreached :
      (p : ℤ) (os : List RestingOrder)
      → reaches s limit m p ≡ false
      → All (Placed s p) os
      → sum_by (offered s limit m skip) os ≡ 0
  unreached p [] h v = refl
  unreached p (o ∷ os) h v = rw (at_order p o false v.0 h) (omega (arith, unreached p os h v.1))

  -- Behind a level out of reach no level is in reach.
  behind_unreached :
      (p : ℤ) (ls : List Level)
      → m ≡ false
      → better s limit p ≡ true
      → Beyond s p ls
      → Ordered s ls
      → sum_by (offered s limit m skip) (orders ls) ≡ 0
  behind_unreached p [] e h b v = refl
  behind_unreached p (l ∷ ls) e h b v = omega (
    arith,
    sum_by-append (offered s limit m skip) l.orders (orders ls),
    unreached l.price l.orders (rw (e, (Beyond-trans s limit p (l ∷ ls) h b).0) refl) v.1,
    behind_unreached l.price ls e (Beyond-trans s limit p (l ∷ ls) h b).0 v.2 v.3,
  )

  scan_levels-offered :
      (st : Unit {0}) (ls : List Level)
      → Ordered s ls
      → (scan_levels walk s limit m st ls).0 ≡ sum_by (offered s limit m skip) (orders ls)
  unfolding scan_levels
  scan_levels-offered st [] v = refl
  scan_levels-offered st (l ∷ ls) v = elim (Bool-cases (not m && better s limit l.price)) [
    | inl t ↦ rw t (
        omega (
          arith,
          behind_unreached l.price ls (and_left m (better s limit l.price) t)
              (and_right m (better s limit l.price) t) v.2 v.3,
          unreached l.price l.orders
              (rw (and_left m (better s limit l.price) t, and_right m (better s limit l.price) t))
              v.1,
          sum_by-append (offered s limit m skip) l.orders (orders ls),
        ))
    | inr t ↦ rw t (
        omega (
          arith,
          scan_orders-offered st l.price l.orders (ground arith) v.1,
          scan_levels-offered (scan_orders walk st l.orders).1 ls v.3,
          sum_by-append (offered s limit m skip) l.orders (orders ls),
        ))
  ]

-- The depth that the walk counts is the displayed and hidden quantity of all the orders of the
-- opposite side that the taker's limit reaches and that the callback does not skip, although the
-- walk stops at the first level out of reach.
pub available_within_excl-offered :
    (taker : Side) (limit : ℤ) (is_market : Bool) (skip : RestingOrder → Bool) (b : Book)
    → WellFormed b
    → (available_within_excl {S = Unit {0}} (λ st o. (skip o, st)) taker limit is_market tt b).0
      ≡ sum_by
          (offered (opposite taker) limit is_market skip)
          (orders (levels_of (opposite taker) b))
unfolding available_within_excl
available_within_excl-offered taker limit is_market skip b v =
    scan_levels-offered (opposite taker) limit is_market skip tt (levels_of (opposite taker) b)
      (side-Ordered b v (opposite taker))
