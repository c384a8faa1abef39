-- ===== src/Stops/Fires.antt =====
-- The stop that is chosen to fire, StopBook::popTriggered of
-- venue/include/flox-venue/stop_book.h, is one that waits in the book and is through its trigger.
use venue_core.Prelude.{
  ℕ, suc, ◌+◌, ◌≡◌, refl, sym, ap, subst, ◌∙◌, ◌⊎◌, inl, inr, false, not, ◌||◌, ◌&&◌, Option, none,
  some, List, [], ◌∷◌, get_elem?, ltb, if-split, Bool-cases, arith,
}
use venue_core.Prelude.Int.{ℤ, pos, ltb_ℤ, eqb_ℤ, ◌-ℤ◌, ◌≤ℤ◌, pos_parts, -ℤ_parts, eqb_ℤ→eq}
use venue_core.Stops.{Pending, Container, StopBook, is_buy}
use venue_core.Stops.Fire.{
  Candidate, consider, lowest_id, fires_trailing, trailing_dist, consider_up, consider_down,
  consider_trailing, choose,
}

-- The entry stands in the multimap.
unfoldable pub Held : ℤ × Pending → List (ℤ × Pending) → Type 0
Held e [] = ⊥
Held e (d ∷ m) = (e ≡ d) ⊎ Held e m

-- The pending order that the candidate names, where it waits, and how far it is through its trigger.
unfoldable pub Waits : ℤ → StopBook → Candidate → Container → Pending → Type 0
unfolding Held
Waits ref b c Container.up p = Held (c.trigger, p) b.up × (c.dist ≡ ref -ℤ c.trigger)
Waits ref b c Container.down p = Held (c.trigger, p) b.down × (c.dist ≡ c.trigger -ℤ ref)
Waits ref b c Container.trailing p =
    (get_elem? b.trailing c.index ≡ some p)
    × (p.trigger ≡ c.trigger)
    × (p.trigger ≡ pos 0 → ⊥)
    × (c.dist ≡ trailing_dist ref p)

-- A candidate names a pending order that is through its trigger.
unfoldable pub Fires : ℤ → StopBook → Option Candidate → Type 0
unfolding Waits
Fires ref b none = Unit
Fires ref b (some c) =
    (p : Pending) × Waits ref b c c.container p × (p.order.id ≡ c.id) × (pos 0 ≤ℤ c.dist)

consider-Fires :
    (ref : ℤ) (b : StopBook) (best : Option Candidate) (c : Candidate)
    → Fires ref b best
    → Fires ref b (some c)
    → Fires ref b (consider best c)
unfolding consider Fires
consider-Fires ref b none c h new = new
consider-Fires ref b (some best) c h new =
    if-split (Fires ref b) (ltb_ℤ best.dist c.dist || (eqb_ℤ c.dist best.dist && ltb c.id best.id))
      (λ e. new) (λ e. h)

-- The lowest id is that of an entry with the key.
lowest_id-Held :
    (t : ℤ) (id : ℕ) (m : List (ℤ × Pending))
    → (lowest_id t id m ≡ id) ⊎ ((q : Pending) × Held (t, q) m × (q.order.id ≡ lowest_id t id m))
unfolding lowest_id Held
lowest_id-Held t id [] = inl refl
lowest_id-Held t id ((j, q) ∷ rest) = elim (Bool-cases (eqb_ℤ j t)) [
  | inr e ↦ inl (rw e refl)
  | inl e ↦
      let same : t ≡ j = sym (eqb_ℤ→eq j t e) in
      rw e (elim (Bool-cases (ltb q.order.id id)) [
        | inl lower ↦ rw lower (elim (lowest_id-Held t q.order.id rest) [
          | inl mine ↦ inr (q, inl (ap (λ k. (k, q)) same), sym mine)
          | inr (p, there, named) ↦ inr (p, inr there, named)
        ])
        | inr higher ↦ rw higher (elim (lowest_id-Held t id rest) [
          | inl mine ↦ inl mine
          | inr (p, there, named) ↦ inr (p, inr there, named)
        ])
      ])
]

head-Held :
    (t : ℤ) (p : Pending) (rest : List (ℤ × Pending))
    → (q : Pending) × Held (t, q) ((t, p) ∷ rest) × (q.order.id ≡ lowest_id t p.order.id rest)
unfolding Held
head-Held t p rest = elim (lowest_id-Held t p.order.id rest) [
  | inl mine ↦ (p, inl refl, sym mine)
  | inr (q, there, named) ↦ (q, inr there, named)
]

up-Fires :
    (ref : ℤ) (b : StopBook) (m : List (ℤ × Pending)) (best : Option Candidate)
    → m ≡ b.up
    → Fires ref b best
    → Fires ref b (consider_up ref m best)
unfolding consider_up Fires
up-Fires ref b [] best e h = h
up-Fires ref b ((t, p) ∷ rest) best e h =
    let (q, there, named) = head-Held t p rest in
    if-split (Fires ref b) (not (ltb_ℤ ref t))
      (λ through. consider-Fires ref b best _ h (
        q,
        (subst (Held (t, q)) e there, refl),
        named,
        ground (arith, through, -ℤ_parts ref t, pos_parts 0),
      ))
      (λ short. h)

down-Fires :
    (ref : ℤ) (b : StopBook) (m : List (ℤ × Pending)) (best : Option Candidate)
    → m ≡ b.down
    → Fires ref b best
    → Fires ref b (consider_down ref m best)
unfolding consider_down Fires
down-Fires ref b [] best e h = h
down-Fires ref b ((t, p) ∷ rest) best e h =
    let (q, there, named) = head-Held t p rest in
    if-split (Fires ref b) (not (ltb_ℤ t ref))
      (λ through. consider-Fires ref b best _ h (
        q,
        (subst (Held (t, q)) e there, refl),
        named,
        ground (arith, through, -ℤ_parts t ref, pos_parts 0),
      ))
      (λ short. h)

through_trailing :
    (ref : ℤ) (s : Pending) → not (fires_trailing ref s) ≡ false → pos 0 ≤ℤ trailing_dist ref s
through_trailing ref s h =
    if-split (λ d. pos 0 ≤ℤ d) (is_buy s.order.side)
      (λ e. ground (arith, -ℤ_parts ref s.trigger, pos_parts 0))
      (λ e. ground (arith, -ℤ_parts s.trigger ref, pos_parts 0))

trailing-Fires :
    (ref : ℤ) (b : StopBook) (i : ℕ) (m : List Pending) (best : Option Candidate)
    → ((k : ℕ) → get_elem? b.trailing (i + k) ≡ get_elem? m k)
    → Fires ref b best
    → Fires ref b (consider_trailing ref i m best)
unfolding consider_trailing Fires
trailing-Fires ref b i [] best at h = h
trailing-Fires ref b i (s ∷ rest) best at h =
    trailing-Fires ref b (i + 1) rest _
      (λ k.
        ap (get_elem? b.trailing) (let shift : i + 1 + k ≡ i + suc k = omega arith in shift)
        ∙ at (suc k))
      (if-split (Fires ref b) (eqb_ℤ s.trigger (pos 0)) (λ e. h)
        (λ armed.
          if-split (Fires ref b) (not (fires_trailing ref s)) (λ e. h)
            (λ through. consider-Fires ref b best _ h (
              s,
              (
                ap (get_elem? b.trailing) (let here : i ≡ i + 0 = omega arith in here) ∙ at 0,
                refl,
                (λ unset. ground (arith, armed, ap (λ z. eqb_ℤ z (pos 0)) unset)),
                refl,
              ),
              refl,
              through_trailing ref s through,
            ))))

pub choose-Fires : (ref : ℤ) (b : StopBook) → Fires ref b (choose ref b)
unfolding choose Fires
choose-Fires ref b =
    trailing-Fires ref b 0 b.trailing _
      (λ k. ap (get_elem? b.trailing) (let same : 0 + k ≡ k = omega arith in same))
      (down-Fires ref b b.down _ refl (up-Fires ref b b.up none refl tt))
