-- ===== src/Stops/Rank.antt =====
-- How a pending stop compares with the chosen one, StopBook::popTriggered: by the distance through
-- its trigger, then by id.
use venue_core.Prelude.{
  ℕ, ◌≤◌, ◌≡◌, ◌⊎◌, inl, inr, Bool, true, false, ◌&&◌, ◌||◌, Option, none, some, List, [], ◌∷◌, All,
  ltb, if◌then◌else◌, if-split, arith,
}
use venue_core.Prelude.Int.{ℤ, pos, ltb_ℤ, eqb_ℤ, ◌-ℤ◌, ◌≤ℤ◌, ◌<ℤ◌, -ℤ_parts}
use venue_core.Stops.{Pending, before}
use venue_core.Stops.Fire.{Candidate, consider, lowest_id}

-- A pending order `d` past its trigger, with id `i`, does not go before the choice.
unfoldable pub Beaten : Option Candidate → ℤ → ℕ → Type 0
Beaten none d i = d <ℤ pos 0
Beaten (some c) d i = (d <ℤ pos 0) ⊎ ((d ≤ℤ c.dist) × ((d <ℤ c.dist) ⊎ (c.id ≤ i)))

pub consider-old :
    (best : Option Candidate) (c : Candidate) (d : ℤ) (i : ℕ)
    → Beaten best d i
    → Beaten (consider best c) d i
unfolding Beaten consider
consider-old none c d i h = inl h
consider-old (some best) c d i h =
    if-split (λ r. Beaten r d i)
      (ltb_ℤ best.dist c.dist || (eqb_ℤ c.dist best.dist && ltb c.id best.id)) (λ e. ground arith)
      (λ e. h)

pub consider-new :
    (best : Option Candidate) (c : Candidate) (d : ℤ) (i : ℕ)
    → d ≤ℤ c.dist
    → (d <ℤ c.dist) ⊎ (c.id ≤ i)
    → Beaten (consider best c) d i
unfolding Beaten consider
consider-new none c d i le tie = inr (le, tie)
consider-new (some best) c d i le tie =
    if-split (λ r. Beaten r d i)
      (ltb_ℤ best.dist c.dist || (eqb_ℤ c.dist best.dist && ltb c.id best.id)) (λ e. inr (le, tie))
      (λ e. ground arith)

-- The keys of a multimap do not go down in its order.
unfoldable pub Sorted : Bool → List (ℤ × Pending) → Type 0
Sorted ascending [] = Unit
Sorted ascending ((t, p) ∷ rest) =
    All (λ (e : ℤ × Pending). before ascending e.0 t ≡ false) rest × Sorted ascending rest

pub lowest_id-le : (t : ℤ) (id : ℕ) (m : List (ℤ × Pending)) → lowest_id t id m ≤ id
unfolding lowest_id
lowest_id-le t id [] = omega arith
lowest_id-le t id ((j, q) ∷ rest) =
    let ih = lowest_id-le t (if ltb q.order.id id then q.order.id else id) rest in
    if-split (λ r. r ≤ id) (eqb_ℤ j t) (λ e. ground (arith, ih)) (λ e. omega arith)

-- How far `ref` is through a trigger.
unfoldable pub dist_to : Bool → ℤ → ℤ → ℤ
dist_to ascending ref t = if ascending then ref -ℤ t else t -ℤ ref

pub dist_to-later :
    (asc : Bool) (ref t t' : ℤ) → before asc t' t ≡ false → dist_to asc ref t' ≤ℤ dist_to asc ref t
unfolding dist_to
dist_to-later true ref t t' h = ground (arith, -ℤ_parts ref t, -ℤ_parts ref t')
dist_to-later false ref t t' h = ground (arith, -ℤ_parts t ref, -ℤ_parts t' ref)

pub dist_to-before :
    (asc : Bool) (ref t t' : ℤ) → before asc t t' ≡ true → dist_to asc ref t' <ℤ dist_to asc ref t
unfolding dist_to
dist_to-before true ref t t' h = ground (arith, -ℤ_parts ref t, -ℤ_parts ref t')
dist_to-before false ref t t' h = ground (arith, -ℤ_parts t ref, -ℤ_parts t' ref)

before_of :
    (asc : Bool) (t j : ℤ) → eqb_ℤ j t ≡ false → before asc j t ≡ false → before asc t j ≡ true
before_of true t j e h = ground arith
before_of false t j e h = ground arith

before_trans :
    (asc : Bool) (t j e : ℤ)
    → before asc t j ≡ true
    → before asc e j ≡ false
    → before asc t e ≡ true
before_trans true t j e h k = ground arith
before_trans false t j e h k = ground arith

pub Beaten-negative : (best : Option Candidate) (d : ℤ) (i : ℕ) → d <ℤ pos 0 → Beaten best d i
unfolding Beaten
Beaten-negative none d i h = h
Beaten-negative (some c) d i h = inl h

-- An entry of the key's own range has no lower id, and any other is behind the key.
unfoldable pub Lowest : Bool → ℤ → ℕ → ℤ × Pending → Type 0
Lowest asc t id e = (before asc t e.0 ≡ true) ⊎ (id ≤ e.1.order.id)

behind-All :
    (asc : Bool) (t j : ℤ) (id : ℕ) (m : List (ℤ × Pending))
    → before asc t j ≡ true
    → All (λ (e : ℤ × Pending). before asc e.0 j ≡ false) m
    → All (Lowest asc t id) m
unfolding Lowest
behind-All asc t j id [] h all = tt
behind-All asc t j id (e ∷ m) h all =
    (inl (before_trans asc t j e.0 h all.0), behind-All asc t j id m h all.1)

pub lowest_id-Lowest :
    (asc : Bool) (t : ℤ) (id : ℕ) (m : List (ℤ × Pending))
    → Sorted asc m
    → All (λ (e : ℤ × Pending). before asc e.0 t ≡ false) m
    → All (Lowest asc t (lowest_id t id m)) m
unfolding lowest_id Sorted Lowest
lowest_id-Lowest asc t id [] sorted all = tt
lowest_id-Lowest asc t id ((j, q) ∷ rest) sorted all =
    let id' = if ltb q.order.id id then q.order.id else id in
    let low : id' ≤ q.order.id = ground arith in
    let ih = lowest_id-Lowest asc t id' rest sorted.1 all.1 in
    if-split (λ r. All (Lowest asc t r) ((j, q) ∷ rest)) (eqb_ℤ j t)
      (λ e. (inr (omega (arith, lowest_id-le t id' rest, low)), ih))
      (λ e. let b = before_of asc t j e all.0 in (inl b, behind-All asc t j id rest b sorted.0))

unfoldable pub SideBeaten : Bool → ℤ → List (ℤ × Pending) → Option Candidate → Type 0
SideBeaten asc ref m best =
    All (λ (e : ℤ × Pending). Beaten best (dist_to asc ref e.0) e.1.order.id) m
