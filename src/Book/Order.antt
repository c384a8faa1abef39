-- ===== src/Book/Order.antt =====
-- The shape of one side of the book: levels strictly ordered by price and never empty, each order
-- at the level of its price with something displayed, and with a peak to show if it has a reserve.
use venue_core.Prelude.{
  ◌⊎◌, some, ◌==◌, subst, ℕ, ◌<◌, ◌≡◌, refl, ◌≢◌, true, false, none, List, [], ◌∷◌, ◌++◌, All,
  All-append, Bool-cases, inl, inr, arith,
}
use venue_core.Prelude.Int.{ℤ, eqb_ℤ, eqb_ℤ→eq}
use venue_core.Types.{Side, buy, sell, RestingOrder}
use venue_core.Book.Levels.{Level, better, push_order, find_at, find_id}

abbrev pub Placed : Side → ℤ → RestingOrder → Type 0
Placed s p o = (o.price ≡ p) × (o.side ≡ s) × (0 < o.leaves) × ((o.hidden ≡ 0) ⊎ (0 < o.peak))

-- All levels of a list are worse than a price.
abbrev pub Beyond : Side → ℤ → List Level → Type 0
Beyond s p ls = All (λ m. better s p m.price ≡ true) ls

abbrev pub Ordered : Side → List Level → Type 0
Ordered s [] = Unit {0}
Ordered s (l ∷ ls) =
    (l.orders ≢ []) × All (Placed s l.price) l.orders × Beyond s l.price ls × Ordered s ls

better_trans :
    (s : Side) (a b c : ℤ) → better s a b ≡ true → better s b c ≡ true → better s a c ≡ true
better_trans buy a b c h k = ground arith
better_trans sell a b c h k = ground arith

pub better_ne : (s : Side) (a b : ℤ) → better s a b ≡ true → eqb_ℤ b a ≡ false
better_ne buy a b h = ground arith
better_ne sell a b h = ground arith

pub better_asym : (s : Side) (a b : ℤ) → better s a b ≡ true → better s b a ≡ false
better_asym buy a b h = ground arith
better_asym sell a b h = ground arith

pub better_total :
    (s : Side) (a b : ℤ) → better s a b ≡ false → better s b a ≡ false → eqb_ℤ b a ≡ true
better_total buy a b h k = ground arith
better_total sell a b h k = ground arith

pub Beyond-trans :
    (s : Side) (p q : ℤ) (ls : List Level) → better s p q ≡ true → Beyond s q ls → Beyond s p ls
Beyond-trans s p q [] h k = tt
Beyond-trans s p q (l ∷ ls) h k = (better_trans s p q l.price h k.0, Beyond-trans s p q ls h k.1)

-- A price better than every level is at none of them.
pub find_at_absent :
    (s : Side) (p : ℤ) (id : ℕ) (ls : List Level) → Beyond s p ls → find_at p id ls ≡ none
unfolding find_at
find_at_absent s p id [] h = refl
find_at_absent s p id (l ∷ ls) h = rw (better_ne s p l.price h.0) (find_at_absent s p id ls h.1)

push-Beyond :
    (s : Side) (p q : ℤ) (o : RestingOrder) (ls : List Level)
    → better s q p ≡ true
    → Beyond s q ls
    → Beyond s q (push_order s p o ls)
unfolding push_order
push-Beyond s p q o [] h k = (h, tt)
push-Beyond s p q o (l ∷ ls) h k = elim (Bool-cases (better s p l.price)) [
  | inl e ↦ rw e (h, k)
  | inr e ↦ rw e (elim (Bool-cases (better s l.price p)) [
    | inl f ↦ rw f (k.0, push-Beyond s p q o ls h k.1)
    | inr f ↦ rw f k
  ])
]

pub append-ne-nil : (o : RestingOrder) (os : List RestingOrder) → os ++ (o ∷ []) ≢ []
append-ne-nil o [] e = cc
append-ne-nil o (x ∷ os) e = cc

pub push-Ordered :
    (s : Side) (p : ℤ) (o : RestingOrder) (ls : List Level)
    → Placed s p o
    → Ordered s ls
    → Ordered s (push_order s p o ls)
unfolding push_order
push-Ordered s p o [] h v = (λ e. cc, (h, tt), tt, tt)
push-Ordered s p o (l ∷ ls) h v = elim (Bool-cases (better s p l.price)) [
  | inl e ↦ rw e ((λ e'. cc), (h, tt), (e, Beyond-trans s p l.price ls e v.2), v)
  | inr e ↦ rw e (elim (Bool-cases (better s l.price p)) [
    | inl f ↦ rw f (v.0, v.1, push-Beyond s p l.price o ls f v.2, push-Ordered s p o ls h v.3)
    | inr f ↦ rw f (
      append-ne-nil o l.orders,
      All-append (Placed s l.price) l.orders (o ∷ []) v.1
          (rw (eqb_ℤ→eq l.price p (better_total s p l.price e f)) (h, tt)),
      v.2,
      v.3,
    )
  ])
]

find_id-Placed :
    (s : Side) (p : ℤ) (id : ℕ) (o : RestingOrder) (os : List RestingOrder)
    → All (Placed s p) os
    → find_id id os ≡ some o
    → Placed s p o
unfolding find_id
find_id-Placed s p id o [] v e = cc
find_id-Placed s p id o (x ∷ os) v e = elim (Bool-cases (x.id == id)) [
  | inl t ↦ subst (Placed s p) (let same : x ≡ o = ground arith in same) v.0
  | inr t ↦ find_id-Placed s p id o os v.1 (ground arith)
]

pub find_at-Placed :
    (s : Side) (p : ℤ) (id : ℕ) (o : RestingOrder) (ls : List Level)
    → Ordered s ls
    → find_at p id ls ≡ some o
    → Placed s p o
unfolding find_at
find_at-Placed s p id o [] v e = cc
find_at-Placed s p id o (l ∷ ls) v e = elim (Bool-cases (eqb_ℤ l.price p)) [
  | inl t ↦ find_id-Placed s p id o l.orders (rw (eqb_ℤ→eq l.price p t) at (v.1)) (ground arith)
  | inr t ↦ find_at-Placed s p id o ls v.3 (ground arith)
]
