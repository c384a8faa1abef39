-- ===== src/Book/Edit.antt =====
-- Edits of a side at the node of an id: a write, an erasure and a requeue.
use venue_core.Prelude.{
  ℕ, ◌==◌, ◌≡◌, refl, ◌≢◌, true, some, List, [], ◌∷◌, ◌++◌, All, All-append, Bool-cases, inl, inr,
  arith,
}
use venue_core.Prelude.Int.{ℤ, eqb_ℤ, eqb_ℤ→eq}
use venue_core.Types.{Side, RestingOrder}
use venue_core.Book.Levels.{
  Level, find_id, update_id, erase_id, find_at, update_at, erase_at, requeue_at, keep_level,
}
use venue_core.Book.Order.{Placed, Beyond, Ordered, append-ne-nil}

module _ (s : Side) (p : ℤ) (id : ℕ) where
  update_id-All :
      (f : RestingOrder → RestingOrder) (o : RestingOrder) (os : List RestingOrder)
      → find_id id os ≡ some o
      → Placed s p (f o)
      → All (Placed s p) os
      → All (Placed s p) (update_id id f os)
  unfolding find_id update_id
  update_id-All f o [] e h v = tt
  update_id-All f o (x ∷ os) e h v = elim (Bool-cases (x.id == id)) [
    | inl t ↦ rw t (subst_head t, v.1)
    | inr t ↦ rw t (v.0, update_id-All f o os (ground arith) h v.1)
  ]
    where
      subst_head : (x.id == id) ≡ true → Placed s p (f x)
      subst_head t = rw (let same : x ≡ o = ground arith in same) h

  update_id-ne-nil :
      (f : RestingOrder → RestingOrder) (os : List RestingOrder) → os ≢ [] → update_id id f os ≢ []
  unfolding update_id
  update_id-ne-nil f [] h = λ e. h refl
  update_id-ne-nil f (x ∷ os) h = elim (Bool-cases (x.id == id)) [
    | inl t ↦ rw t (λ e. cc)
    | inr t ↦ rw t (λ e. cc)
  ]

  pub erase_id-All :
      (os : List RestingOrder) → All (Placed s p) os → All (Placed s p) (erase_id id os)
  unfolding erase_id
  erase_id-All [] v = tt
  erase_id-All (x ∷ os) v = elim (Bool-cases (x.id == id)) [
    | inl t ↦ rw t v.1
    | inr t ↦ rw t (v.0, erase_id-All os v.1)
  ]

  update-Beyond :
      (f : RestingOrder → RestingOrder) (q : ℤ) (ls : List Level)
      → Beyond s q ls
      → Beyond s q (update_at p id f ls)
  unfolding update_at
  update-Beyond f q [] h = tt
  update-Beyond f q (l ∷ ls) h = elim (Bool-cases (eqb_ℤ l.price p)) [
    | inl t ↦ rw t h
    | inr t ↦ rw t (h.0, update-Beyond f q ls h.1)
  ]

  pub update-Ordered :
      (f : RestingOrder → RestingOrder) (o : RestingOrder) (ls : List Level)
      → find_at p id ls ≡ some o
      → Placed s p (f o)
      → Ordered s ls
      → Ordered s (update_at p id f ls)
  unfolding update_at find_at
  update-Ordered f o [] e h v = tt
  update-Ordered f o (l ∷ ls) e h v = elim (Bool-cases (eqb_ℤ l.price p)) [
    | inl t ↦ rw t (
      update_id-ne-nil f l.orders v.0,
      rw (eqb_ℤ→eq l.price p t)
          (update_id-All f o l.orders (ground arith) h (rw (eqb_ℤ→eq l.price p t) at (v.1))),
      v.2,
      v.3,
    )
    | inr t ↦
        rw t (v.0, v.1, update-Beyond f l.price ls v.2, update-Ordered f o ls (ground arith) h v.3)
  ]

  keep_level-Beyond :
      (q : ℤ) (l : Level) (os : List RestingOrder) (ls : List Level)
      → Beyond s q (l ∷ ls)
      → Beyond s q (keep_level l.price os ls)
  keep_level-Beyond q l [] ls h = h.1
  keep_level-Beyond q l (o ∷ os) ls h = h

  pub keep_level-Ordered :
      (q : ℤ) (os : List RestingOrder) (ls : List Level)
      → All (Placed s q) os
      → Beyond s q ls
      → Ordered s ls
      → Ordered s (keep_level q os ls)
  keep_level-Ordered q [] ls h k v = v
  keep_level-Ordered q (o ∷ os) ls h k v = (λ e. cc, h, k, v)

  erase-Beyond : (q : ℤ) (ls : List Level) → Beyond s q ls → Beyond s q (erase_at p id ls)
  unfolding erase_at
  erase-Beyond q [] h = tt
  erase-Beyond q (l ∷ ls) h = elim (Bool-cases (eqb_ℤ l.price p)) [
    | inl t ↦ rw t (keep_level-Beyond q l (erase_id id l.orders) ls h)
    | inr t ↦ rw t (h.0, erase-Beyond q ls h.1)
  ]

  pub erase-Ordered : (ls : List Level) → Ordered s ls → Ordered s (erase_at p id ls)
  unfolding erase_at
  erase-Ordered [] v = tt
  erase-Ordered (l ∷ ls) v = elim (Bool-cases (eqb_ℤ l.price p)) [
    | inl t ↦ rw t (keep_level-Ordered l.price (erase_id id l.orders) ls (kept t) v.2 v.3)
    | inr t ↦ rw t (v.0, v.1, erase-Beyond l.price ls v.2, erase-Ordered ls v.3)
  ]
    where
      kept : eqb_ℤ l.price p ≡ true → All (Placed s l.price) (erase_id id l.orders)
      kept t =
          rw (eqb_ℤ→eq l.price p t) (erase_id-All l.orders (rw (eqb_ℤ→eq l.price p t) at (v.1)))

  requeue-Beyond :
      (o : RestingOrder) (q : ℤ) (ls : List Level)
      → Beyond s q ls
      → Beyond s q (requeue_at p id o ls)
  unfolding requeue_at
  requeue-Beyond o q [] h = tt
  requeue-Beyond o q (l ∷ ls) h = elim (Bool-cases (eqb_ℤ l.price p)) [
    | inl t ↦ rw t h
    | inr t ↦ rw t (h.0, requeue-Beyond o q ls h.1)
  ]

  pub requeue-Ordered :
      (o : RestingOrder) (ls : List Level)
      → Placed s p o
      → Ordered s ls
      → Ordered s (requeue_at p id o ls)
  unfolding requeue_at
  requeue-Ordered o [] h v = tt
  requeue-Ordered o (l ∷ ls) h v = elim (Bool-cases (eqb_ℤ l.price p)) [
    | inl t ↦ rw t (append-ne-nil o (erase_id id l.orders), requeued t, v.2, v.3)
    | inr t ↦ rw t (v.0, v.1, requeue-Beyond o l.price ls v.2, requeue-Ordered o ls h v.3)
  ]
    where
      requeued : eqb_ℤ l.price p ≡ true → All (Placed s l.price) (erase_id id l.orders ++ (o ∷ []))
      requeued t = rw (eqb_ℤ→eq l.price p t) (
          All-append (Placed s p) (erase_id id l.orders) (o ∷ [])
            (erase_id-All l.orders (rw (eqb_ℤ→eq l.price p t) at (v.1))) (h, tt))
