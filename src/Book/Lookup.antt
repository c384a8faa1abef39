-- ===== src/Book/Lookup.antt =====
-- Lookups through an iterator of the index before and after an edit of a side.
use venue_core.Prelude.{
  ℕ, ◌<◌, ◌==◌, ◌≡◌, refl, true, false, none, some, List, [], ◌∷◌, ◌++◌, sum_by-append, arith,
  Bool-cases, inl, inr, if◌then◌else◌, sym,
}
use venue_core.Prelude.Int.{ℤ, eqb_ℤ, eqb_ℤ→eq}
use venue_core.Types.{Side, RestingOrder}
use venue_core.Book.Levels.{
  Level, better, orders, push_order, find_id, update_id, erase_id, find_at, update_at, erase_at,
  requeue_at, keep_level,
}
use venue_core.Book.Order.{Ordered, Beyond, better_ne, better_total, find_at_absent, Beyond-trans}
use venue_core.Book.Weight.{holds, count_id, sum-erase_id}

find_id-id :
    (id : ℕ) (o : RestingOrder) (os : List RestingOrder) → find_id id os ≡ some o → o.id ≡ id
unfolding find_id
find_id-id id o [] e = cc
find_id-id id o (x ∷ os) e = ground (arith, find_id-id id o os)

pub find_at-id :
    (p : ℤ) (id : ℕ) (o : RestingOrder) (ls : List Level) → find_at p id ls ≡ some o → o.id ≡ id
unfolding find_at
find_at-id p id o [] e = cc
find_at-id p id o (l ∷ ls) e = ground (arith, find_at-id p id o ls, find_id-id id o l.orders)

pub find_id-count :
    (id : ℕ) (o : RestingOrder) (os : List RestingOrder)
    → find_id id os ≡ some o
    → 0 < count_id id os
unfolding find_id
find_id-count id o [] e = cc
find_id-count id o (x ∷ os) e = ground (arith, find_id-count id o os)

-- What a lookup finds is counted.
pub find_at-count :
    (p : ℤ) (id : ℕ) (o : RestingOrder) (ls : List Level)
    → find_at p id ls ≡ some o
    → 0 < count_id id (orders ls)
unfolding find_at
find_at-count p id o [] e = cc
find_at-count p id o (l ∷ ls) e = ground (
  arith,
  find_at-count p id o ls,
  find_id-count id o l.orders,
  sum_by-append (holds id) l.orders (orders ls),
)

find_id-append_ne :
    (j : ℕ) (o : RestingOrder) (os : List RestingOrder)
    → (o.id == j) ≡ false
    → find_id j (os ++ (o ∷ [])) ≡ find_id j os
unfolding find_id
find_id-append_ne j o [] e = ground arith
find_id-append_ne j o (x ∷ os) e = ground (arith, find_id-append_ne j o os)

find_id-append_self :
    (id : ℕ) (o : RestingOrder) (os : List RestingOrder)
    → o.id ≡ id
    → count_id id os ≡ 0
    → find_id id (os ++ (o ∷ [])) ≡ some o
unfolding find_id
find_id-append_self id o [] e h = ground arith
find_id-append_self id o (x ∷ os) e h = ground (arith, find_id-append_self id o os)

find_at_absent_eq :
    (s : Side) (p q : ℤ) (id : ℕ) (ls : List Level)
    → eqb_ℤ p q ≡ true
    → Beyond s p ls
    → find_at q id ls ≡ none
find_at_absent_eq s p q id ls u h = rw (← eqb_ℤ→eq p q u) (find_at_absent s p id ls h)

module _ (s : Side) (p : ℤ) (o : RestingOrder) where
  pub find_at-push_ne :
      (q : ℤ) (j : ℕ) (ls : List Level)
      → (o.id == j) ≡ false
      → Ordered s ls
      → find_at q j (push_order s p o ls) ≡ find_at q j ls
  unfolding push_order find_at find_id
  find_at-push_ne q j [] e v = ground arith
  find_at-push_ne q j (l ∷ ls) e v = elim (Bool-cases (better s p l.price)) [
    | inl t ↦ rw t (fresh t)
    | inr t ↦ rw t (ground (arith, find_at-push_ne q j ls e v.3, find_id-append_ne j o l.orders))
  ]
    where
      fresh :
          better s p l.price ≡ true
          → find_at q j (record { price = p; orders = o ∷ [] } ∷ l ∷ ls) ≡ find_at q j (l ∷ ls)
      fresh t = elim (Bool-cases (eqb_ℤ p q)) [
        | inl u ↦
            rw (u, e)
              (sym (find_at_absent_eq s p q j (l ∷ ls) u (t, Beyond-trans s p l.price ls t v.2)))
        | inr u ↦ rw u
      ]

  pub find_at-push_self :
      (ls : List Level)
      → count_id o.id (orders ls) ≡ 0
      → Ordered s ls
      → find_at p o.id (push_order s p o ls) ≡ some o
  unfolding push_order find_at find_id
  find_at-push_self [] h v = ground arith
  find_at-push_self (l ∷ ls) h v = ground (
    arith,
    find_at-push_self ls,
    find_id-append_self o.id o l.orders,
    sum_by-append (holds o.id) l.orders (orders ls),
    better_ne s l.price p,
    better_total s p l.price,
  )

module _ (p : ℤ) (id : ℕ) where
  find_id-update_ne :
      (f : RestingOrder → RestingOrder) (o : RestingOrder) (j : ℕ) (os : List RestingOrder)
      → find_id id os ≡ some o
      → (f o).id ≡ id
      → (id == j) ≡ false
      → find_id j (update_id id f os) ≡ find_id j os
  unfolding find_id update_id
  find_id-update_ne f o j [] e h k = cc
  find_id-update_ne f o j (x ∷ os) e h k = ground (arith, find_id-update_ne f o j os)

  pub find_at-update_ne :
      (f : RestingOrder → RestingOrder) (o : RestingOrder) (q : ℤ) (j : ℕ) (ls : List Level)
      → find_at p id ls ≡ some o
      → (f o).id ≡ id
      → (id == j) ≡ false
      → find_at q j (update_at p id f ls) ≡ find_at q j ls
  unfolding find_at update_at
  find_at-update_ne f o q j [] e h k = cc
  find_at-update_ne f o q j (l ∷ ls) e h k =
      ground (arith, find_at-update_ne f o q j ls, find_id-update_ne f o j l.orders)

  find_id-update_self :
      (f : RestingOrder → RestingOrder) (o : RestingOrder) (os : List RestingOrder)
      → find_id id os ≡ some o
      → (f o).id ≡ id
      → find_id id (update_id id f os) ≡ some (f o)
  unfolding find_id update_id
  find_id-update_self f o [] e h = cc
  find_id-update_self f o (x ∷ os) e h = ground (arith, find_id-update_self f o os)

  pub find_at-update_self :
      (f : RestingOrder → RestingOrder) (o : RestingOrder) (ls : List Level)
      → find_at p id ls ≡ some o
      → (f o).id ≡ id
      → find_at p id (update_at p id f ls) ≡ some (f o)
  unfolding find_at update_at
  find_at-update_self f o [] e h = cc
  find_at-update_self f o (l ∷ ls) e h =
      ground (arith, find_at-update_self f o ls, find_id-update_self f o l.orders)

  find_id-erase_ne :
      (j : ℕ) (os : List RestingOrder)
      → (id == j) ≡ false
      → find_id j (erase_id id os) ≡ find_id j os
  unfolding find_id erase_id
  find_id-erase_ne j [] k = refl
  find_id-erase_ne j (x ∷ os) k = ground (arith, find_id-erase_ne j os)

  find_at-keep_level :
      (s : Side) (q r : ℤ) (j : ℕ) (os : List RestingOrder) (ls : List Level)
      → Beyond s r ls
      → find_at q j (keep_level r os ls) ≡ (if eqb_ℤ r q then find_id j os else find_at q j ls)
  unfolding find_at find_id
  find_at-keep_level s q r j [] ls h = elim (Bool-cases (eqb_ℤ r q)) [
    | inl u ↦ rw (u, ← eqb_ℤ→eq r q u) (find_at_absent s r j ls h)
    | inr u ↦ rw u
  ]
  find_at-keep_level s q r j (o ∷ os) ls h = refl

  pub find_at-erase_ne :
      (s : Side) (q : ℤ) (j : ℕ) (ls : List Level)
      → (id == j) ≡ false
      → Ordered s ls
      → find_at q j (erase_at p id ls) ≡ find_at q j ls
  unfolding find_at erase_at
  find_at-erase_ne s q j [] k v = refl
  find_at-erase_ne s q j (l ∷ ls) k v = ground (
    arith,
    find_at-erase_ne s q j ls k v.3,
    find_id-erase_ne j l.orders k,
    find_at-keep_level s q l.price j (erase_id id l.orders) ls v.2,
  )

  pub find_at-requeue_ne :
      (o : RestingOrder) (q : ℤ) (j : ℕ) (ls : List Level)
      → o.id ≡ id
      → (id == j) ≡ false
      → find_at q j (requeue_at p id o ls) ≡ find_at q j ls
  unfolding find_at requeue_at
  find_at-requeue_ne o q j [] h k = refl
  find_at-requeue_ne o q j (l ∷ ls) h k = ground (
    arith,
    find_at-requeue_ne o q j ls,
    find_id-erase_ne j l.orders k,
    find_id-append_ne j o (erase_id id l.orders),
  )

  pub find_at-requeue_self :
      (o o' : RestingOrder) (ls : List Level)
      → find_at p id ls ≡ some o
      → o'.id ≡ id
      → count_id id (orders ls) ≡ 1
      → find_at p id (requeue_at p id o' ls) ≡ some o'
  unfolding find_at requeue_at
  find_at-requeue_self o o' [] e h k = cc
  find_at-requeue_self o o' (l ∷ ls) e h k = ground (
    arith,
    find_at-requeue_self o o' ls,
    find_id-id id o l.orders,
    find_at-count p id o ls,
    sum-erase_id (holds id) id o l.orders,
    find_id-count id o l.orders,
    sum_by-append (holds id) l.orders (orders ls),
    find_id-append_self id o' (erase_id id l.orders),
  )
