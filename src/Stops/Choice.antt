-- ===== src/Stops/Choice.antt =====
-- All pending stops against the chosen one, StopBook::popTriggered of
-- venue/include/flox-venue/stop_book.h.
use venue_core.Prelude.{
  ℕ, ◌+◌, ◌≡◌, refl, ◌⊎◌, inl, inr, Bool, true, false, not, Option, none, List, [], ◌∷◌, All,
  All-imp, if◌then◌else◌, if-split, Bool-cases, arith,
}
use venue_core.Prelude.Int.{ℤ, pos, ltb_ℤ, eqb_ℤ, ◌-ℤ◌, ◌<ℤ◌, pos_parts, -ℤ_parts, eqb_ℤ→eq}
use venue_core.Stops.{Pending, Container, StopBook, before, is_buy}
use venue_core.Stops.Fire.{
  Candidate, consider, lowest_id, fires_trailing, trailing_dist, consider_up, consider_down,
  consider_trailing, choose,
}
use venue_core.Stops.Fires.{Fires, choose-Fires}
use venue_core.Stops.Rank.{
  Beaten, Sorted, dist_to, SideBeaten, consider-old, consider-new, lowest_id-le, dist_to-later,
  dist_to-before, Beaten-negative, Lowest, lowest_id-Lowest,
}

behind-beaten :
    (asc : Bool) (ref t : ℤ) (best : Option Candidate) (c : Candidate) (m : List (ℤ × Pending))
    → c.dist ≡ dist_to asc ref t
    → All (λ (e : ℤ × Pending). before asc e.0 t ≡ false) m
    → All (Lowest asc t c.id) m
    → SideBeaten asc ref m (consider best c)
unfolding SideBeaten Lowest
behind-beaten asc ref t best c [] same later low = tt
behind-beaten asc ref t best c (e ∷ m) same later low = (
  consider-new best c (dist_to asc ref e.0) e.1.order.id
      (rw same (dist_to-later asc ref t e.0 later.0))
      (elim low.0 [ inl b ↦ inl (rw same (dist_to-before asc ref t e.0 b)) | inr le ↦ inr le ]),
  behind-beaten asc ref t best c m same later.1 low.1,
)

-- The candidate of one multimap goes before all of that multimap.
head-beaten :
    (asc : Bool) (ref t : ℤ) (p : Pending) (rest : List (ℤ × Pending)) (best : Option Candidate)
    (c : Candidate)
    → Sorted asc ((t, p) ∷ rest)
    → c.dist ≡ dist_to asc ref t
    → c.id ≡ lowest_id t p.order.id rest
    → SideBeaten asc ref ((t, p) ∷ rest) (consider best c)
unfolding SideBeaten Sorted
head-beaten asc ref t p rest best c sorted same lowest = (
  consider-new best c (dist_to asc ref t) p.order.id (rw same (omega arith))
      (inr (omega (arith, lowest, lowest_id-le t p.order.id rest))),
  behind-beaten asc ref t best c rest same sorted.0
      (rw lowest (lowest_id-Lowest asc t p.order.id rest sorted.1 sorted.0)),
)

none-beaten :
    (asc : Bool) (ref t : ℤ) (best : Option Candidate) (m : List (ℤ × Pending))
    → dist_to asc ref t <ℤ pos 0
    → All (λ (e : ℤ × Pending). before asc e.0 t ≡ false) m
    → SideBeaten asc ref m best
unfolding SideBeaten
none-beaten asc ref t best [] neg later = tt
none-beaten asc ref t best (e ∷ m) neg later = (
  Beaten-negative best (dist_to asc ref e.0) e.1.order.id
      (omega (arith, neg, dist_to-later asc ref t e.0 later.0)),
  none-beaten asc ref t best m neg later.1,
)

up-beaten :
    (ref : ℤ) (m : List (ℤ × Pending)) (best : Option Candidate)
    → Sorted true m
    → SideBeaten true ref m (consider_up ref m best)
unfolding consider_up Sorted SideBeaten dist_to
up-beaten ref [] best sorted = tt
up-beaten ref ((t, p) ∷ rest) best sorted =
    if-split (SideBeaten true ref ((t, p) ∷ rest)) (not (ltb_ℤ ref t))
      (λ e. head-beaten true ref t p rest best _ sorted refl refl)
      (λ e.
        let neg : ref -ℤ t <ℤ pos 0 = ground (arith, -ℤ_parts ref t, pos_parts 0) in
        (Beaten-negative best _ _ neg, none-beaten true ref t best rest neg sorted.0))

down-beaten :
    (ref : ℤ) (m : List (ℤ × Pending)) (best : Option Candidate)
    → Sorted false m
    → SideBeaten false ref m (consider_down ref m best)
unfolding consider_down Sorted SideBeaten dist_to
down-beaten ref [] best sorted = tt
down-beaten ref ((t, p) ∷ rest) best sorted =
    if-split (SideBeaten false ref ((t, p) ∷ rest)) (not (ltb_ℤ t ref))
      (λ e. head-beaten false ref t p rest best _ sorted refl refl)
      (λ e.
        let neg : t -ℤ ref <ℤ pos 0 = ground (arith, -ℤ_parts t ref, pos_parts 0) in
        (Beaten-negative best _ _ neg, none-beaten false ref t best rest neg sorted.0))

-- Every comparison so far still holds.
Kept : Option Candidate → Option Candidate → Type 0
Kept best best' = (d : ℤ) (i : ℕ) → Beaten best d i → Beaten best' d i

trailing-Kept :
    (ref : ℤ) (i : ℕ) (m : List Pending) (best : Option Candidate)
    → Kept best (consider_trailing ref i m best)
unfolding Kept consider_trailing
trailing-Kept ref i [] best d n h = h
trailing-Kept ref i (s ∷ rest) best d n h = trailing-Kept ref (i + 1) rest _ d n (
    if-split (λ r. Beaten r d n) (eqb_ℤ s.trigger (pos 0)) (λ e. h)
      (λ e.
        if-split (λ r. Beaten r d n) (not (fires_trailing ref s)) (λ e1. h)
          (λ e1. consider-old best _ d n h)))

-- A trailing stop whose trigger is not set yet does not fire.
unfoldable pub TrailingBeaten : ℤ → List Pending → Option Candidate → Type 0
TrailingBeaten ref m best =
    All (λ (s : Pending). (s.trigger ≡ pos 0) ⊎ Beaten best (trailing_dist ref s) s.order.id) m

not_fires-negative :
    (ref : ℤ) (s : Pending) → not (fires_trailing ref s) ≡ true → trailing_dist ref s <ℤ pos 0
not_fires-negative ref s h =
    if-split (λ d. d <ℤ pos 0) (is_buy s.order.side)
      (λ e. ground (arith, -ℤ_parts ref s.trigger, pos_parts 0))
      (λ e. ground (arith, -ℤ_parts s.trigger ref, pos_parts 0))

trailing-beaten :
    (ref : ℤ) (i : ℕ) (m : List Pending) (best : Option Candidate)
    → TrailingBeaten ref m (consider_trailing ref i m best)
unfolding consider_trailing TrailingBeaten Kept
trailing-beaten ref i [] best = tt
trailing-beaten ref i (s ∷ rest) best = (
  elim (Bool-cases (eqb_ℤ s.trigger (pos 0))) [
    | inl e ↦ inl (eqb_ℤ→eq s.trigger (pos 0) e)
    | inr e ↦ inr (trailing-Kept ref (i + 1) rest _ _ _ (armed e))
  ],
  trailing-beaten ref (i + 1) rest _,
)
  where
    next : Option Candidate
    next =
        if eqb_ℤ s.trigger (pos 0)
        then best
        else if not (fires_trailing ref s)
        then best
        else consider best (record {
          container = Container.trailing;
          trigger = s.trigger;
          id = s.order.id;
          dist = trailing_dist ref s;
          index = i;
        })

    armed : eqb_ℤ s.trigger (pos 0) ≡ false → Beaten next (trailing_dist ref s) s.order.id
    armed e =
        if-split (λ r. Beaten r (trailing_dist ref s) s.order.id) (eqb_ℤ s.trigger (pos 0))
          (λ e1. ground arith)
          (λ e1.
            if-split (λ r. Beaten r (trailing_dist ref s) s.order.id) (not (fires_trailing ref s))
              (λ e2. Beaten-negative best _ _ (not_fires-negative ref s e2))
              (λ e2. consider-new best _ _ _ (omega arith) (inr (omega arith))))

down-Kept :
    (ref : ℤ) (m : List (ℤ × Pending)) (best : Option Candidate)
    → Kept best (consider_down ref m best)
unfolding Kept consider_down
down-Kept ref [] best d n h = h
down-Kept ref ((t, p) ∷ rest) best d n h =
    if-split (λ r. Beaten r d n) (not (ltb_ℤ t ref)) (λ e. consider-old best _ d n h) (λ e. h)

-- At a reference price, a stop is chosen only if it waits in the book, in the container, under the
-- trigger and with the id that the choice names, and is through its trigger, by the distance that
-- the choice names. And whatever is chosen, or nothing, no pending stop goes before it: an up stop,
-- a down stop or an armed trailing stop is not through its trigger, or is through it by less, or by
-- as much with no lower id. The two multimaps are in the order of their keys.
pub choose-Beaten :
    (ref : ℤ) (b : StopBook)
    → Sorted true b.up
    → Sorted false b.down
    → Fires ref b (choose ref b)
      × SideBeaten true ref b.up (choose ref b)
      × SideBeaten false ref b.down (choose ref b)
      × TrailingBeaten ref b.trailing (choose ref b)
unfolding choose SideBeaten Kept
choose-Beaten ref b up_sorted down_sorted =
    let first = consider_up ref b.up none in
    let second = consider_down ref b.down first in
    (
      choose-Fires ref b,
      All-imp _ _ b.up
          (λ e h. trailing-Kept ref 0 b.trailing second _ _ (down-Kept ref b.down first _ _ h))
          (up-beaten ref b.up none up_sorted),
      All-imp _ _ b.down (λ e h. trailing-Kept ref 0 b.trailing second _ _ h)
          (down-beaten ref b.down first down_sorted),
      trailing-beaten ref 0 b.trailing second,
    )
