-- ===== src/Book/Abstract.antt =====
-- The edits of one side, venue/include/flox-venue/matching_book.h, beside those of a list in the
-- order of priority.
use venue_core.Prelude.{
  ℕ, ◌≡◌, refl, sym, ap, subst, ◌∙◌, true, false, none, some, List, [], ◌∷◌, ◌++◌, append_assoc,
  sum_by-append, All, All-append, Bool, Bool-cases, inl, inr, arith,
}
use venue_core.Prelude.Int.{ℤ, eqb_ℤ, eqb_ℤ→eq}
use venue_core.Types.{Side, buy, sell, RestingOrder}
use venue_core.Book.Levels.{
  Level, better, orders, push_order, find_id, update_id, erase_id, find_at, update_at, erase_at,
  requeue_at, keep_level,
}
use venue_core.Book.Order.{Ordered, Placed, Beyond, Beyond-trans, better_total, better_asym}
use venue_core.Book.Edit.{erase_id-All}
use venue_core.Book.Weight.{holds, count_id}
use venue_core.Book.Lookup.{find_at-count}
use venue_core.Book.Queue.{enqueue}

enqueue-past :
    (s : Side) (o : RestingOrder) (xs ys : List RestingOrder)
    → All (λ x. better s o.price x.price ≡ false) xs
    → enqueue s o (xs ++ ys) ≡ xs ++ enqueue s o ys
unfolding enqueue
enqueue-past s o [] ys h = refl
enqueue-past s o (x ∷ xs) ys h = rw (h.0) (ap (λ zs. x ∷ zs) (enqueue-past s o xs ys h.1))

enqueue-first :
    (s : Side) (o : RestingOrder) (xs : List RestingOrder)
    → All (λ x. better s o.price x.price ≡ true) xs
    → enqueue s o xs ≡ o ∷ xs
unfolding enqueue
enqueue-first s o [] h = refl
enqueue-first s o (x ∷ xs) h = rw (h.0) refl

Placed-All :
    (s : Side) (p q : ℤ) (x : Bool) (os : List RestingOrder)
    → better s p q ≡ x
    → All (Placed s q) os
    → All (λ o. better s p o.price ≡ x) os
Placed-All s p q x [] h v = tt
Placed-All s p q x (o ∷ os) h v =
    (subst (λ r. better s p r ≡ x) (sym v.0.0) h, Placed-All s p q x os h v.1)

Beyond-All :
    (s : Side) (p : ℤ) (ls : List Level)
    → Beyond s p ls
    → Ordered s ls
    → All (λ o. better s p o.price ≡ true) (orders ls)
Beyond-All s p [] h v = tt
Beyond-All s p (l ∷ ls) h v =
    All-append _ l.orders (orders ls) (Placed-All s p l.price true l.orders h.0 v.1)
      (Beyond-All s p ls h.1 v.3)

better_irrefl : (s : Side) (p : ℤ) → better s p p ≡ false
better_irrefl buy p = ground arith
better_irrefl sell p = ground arith

-- A new order joins the list where a new order joins the levels.
pub orders-push_order :
    (s : Side) (o : RestingOrder) (ls : List Level)
    → Ordered s ls
    → orders (push_order s o.price o ls) ≡ enqueue s o (orders ls)
unfolding push_order enqueue
orders-push_order s o [] v = refl
orders-push_order s o (l ∷ ls) v = elim (Bool-cases (better s o.price l.price)) [
  | inl t ↦ rw t (
      sym (
        enqueue-first s o (orders (l ∷ ls))
          (Beyond-All s o.price (l ∷ ls) (t, Beyond-trans s o.price l.price ls t v.2) v)))
  | inr t ↦
      let past : enqueue s o (orders (l ∷ ls)) ≡ l.orders ++ enqueue s o (orders ls) =
        enqueue-past s o l.orders (orders ls) (Placed-All s o.price l.price false l.orders t v.1) in
      rw t (elim (Bool-cases (better s l.price o.price)) [
        | inl u ↦ rw u (ap (λ zs. l.orders ++ zs) (orders-push_order s o ls v.3) ∙ sym past)
        | inr u ↦
            let same : o.price ≡ l.price =
              eqb_ℤ→eq o.price l.price (better_total s l.price o.price u t) in
            rw u (
              append_assoc l.orders (o ∷ []) (orders ls)
              ∙ ap (λ zs. l.orders ++ zs)
                  (sym (
                    enqueue-first s o (orders ls)
                      (Beyond-All s o.price ls (subst (λ q. Beyond s q ls) (sym same) v.2) v.3)))
              ∙ sym past)
      ])
]

module _ (id : ℕ) where
  find_id-append :
      (xs ys : List RestingOrder) → count_id id xs ≡ 0 → find_id id (xs ++ ys) ≡ find_id id ys
  unfolding find_id
  find_id-append [] ys h = refl
  find_id-append (x ∷ xs) ys h = ground (arith, find_id-append xs ys)

  find_id-here :
      (o : RestingOrder) (xs ys : List RestingOrder)
      → find_id id xs ≡ some o
      → find_id id (xs ++ ys) ≡ some o
  unfolding find_id
  find_id-here o [] ys h = cc
  find_id-here o (x ∷ xs) ys h = ground (arith, find_id-here o xs ys)

  erase_id-past :
      (xs ys : List RestingOrder)
      → count_id id xs ≡ 0
      → erase_id id (xs ++ ys) ≡ xs ++ erase_id id ys
  unfolding erase_id
  erase_id-past [] ys h = refl
  erase_id-past (x ∷ xs) ys h = ground (arith, erase_id-past xs ys)

  erase_id-here :
      (o : RestingOrder) (xs ys : List RestingOrder)
      → find_id id xs ≡ some o
      → erase_id id (xs ++ ys) ≡ erase_id id xs ++ ys
  unfolding find_id erase_id
  erase_id-here o [] ys h = cc
  erase_id-here o (x ∷ xs) ys h = ground (arith, erase_id-here o xs ys)

  pub erase_id-absent : (xs : List RestingOrder) → count_id id xs ≡ 0 → erase_id id xs ≡ xs
  unfolding erase_id
  erase_id-absent [] h = refl
  erase_id-absent (x ∷ xs) h = ground (arith, erase_id-absent xs)

  pub find_id-absent : (xs : List RestingOrder) → count_id id xs ≡ 0 → find_id id xs ≡ none
  unfolding find_id
  find_id-absent [] h = refl
  find_id-absent (x ∷ xs) h = ground (arith, find_id-absent xs)

  module _ (f : RestingOrder → RestingOrder) where
    update_id-past :
        (xs ys : List RestingOrder)
        → count_id id xs ≡ 0
        → update_id id f (xs ++ ys) ≡ xs ++ update_id id f ys
    unfolding update_id
    update_id-past [] ys h = refl
    update_id-past (x ∷ xs) ys h = ground (arith, update_id-past xs ys)

    update_id-here :
        (o : RestingOrder) (xs ys : List RestingOrder)
        → find_id id xs ≡ some o
        → update_id id f (xs ++ ys) ≡ update_id id f xs ++ ys
    unfolding find_id update_id
    update_id-here o [] ys h = cc
    update_id-here o (x ∷ xs) ys h = ground (arith, update_id-here o xs ys)

    pub update_id-absent : (xs : List RestingOrder) → count_id id xs ≡ 0 → update_id id f xs ≡ xs
    unfolding update_id
    update_id-absent [] h = refl
    update_id-absent (x ∷ xs) h = ground (arith, update_id-absent xs)

  -- Where the order is found, and that no level before it has its id.
  pub orders-find_at :
      (p : ℤ) (o : RestingOrder) (ls : List Level)
      → find_at p id ls ≡ some o
      → count_id id (orders ls) ≡ 1
      → find_id id (orders ls) ≡ some o
  unfolding find_at
  orders-find_at p o [] e h = cc
  orders-find_at p o (l ∷ ls) e h = ground (
    arith,
    orders-find_at p o ls,
    find_at-count p id o ls,
    find_id-here o l.orders (orders ls),
    find_id-append l.orders (orders ls),
    sum_by-append (holds id) l.orders (orders ls),
  )

  pub orders-update_at :
      (p : ℤ) (f : RestingOrder → RestingOrder) (o : RestingOrder) (ls : List Level)
      → find_at p id ls ≡ some o
      → count_id id (orders ls) ≡ 1
      → orders (update_at p id f ls) ≡ update_id id f (orders ls)
  unfolding find_at update_at
  orders-update_at p f o [] e h = cc
  orders-update_at p f o (l ∷ ls) e h = ground (
    arith,
    orders-update_at p f o ls,
    find_at-count p id o ls,
    update_id-here f o l.orders (orders ls),
    update_id-past f l.orders (orders ls),
    sum_by-append (holds id) l.orders (orders ls),
  )

  orders-keep_level :
      (p : ℤ) (os : List RestingOrder) (ls : List Level)
      → orders (keep_level p os ls) ≡ os ++ orders ls
  orders-keep_level p [] ls = refl
  orders-keep_level p (o ∷ os) ls = refl

  pub orders-erase_at :
      (p : ℤ) (o : RestingOrder) (ls : List Level)
      → find_at p id ls ≡ some o
      → count_id id (orders ls) ≡ 1
      → orders (erase_at p id ls) ≡ erase_id id (orders ls)
  unfolding find_at erase_at
  orders-erase_at p o [] e h = cc
  orders-erase_at p o (l ∷ ls) e h = ground (
    arith,
    orders-erase_at p o ls,
    orders-keep_level l.price (erase_id id l.orders) ls,
    find_at-count p id o ls,
    erase_id-here o l.orders (orders ls),
    erase_id-past l.orders (orders ls),
    sum_by-append (holds id) l.orders (orders ls),
  )

  find_at-Beyond :
      (s : Side) (p q : ℤ) (o : RestingOrder) (ls : List Level)
      → find_at p id ls ≡ some o
      → Beyond s q ls
      → better s q p ≡ true
  unfolding find_at
  find_at-Beyond s p q o [] e h = absurd (ground arith)
  find_at-Beyond s p q o (l ∷ ls) e h = elim (Bool-cases (eqb_ℤ l.price p)) [
    | inl t ↦ subst (λ r. better s q r ≡ true) (eqb_ℤ→eq l.price p t) h.0
    | inr t ↦ find_at-Beyond s p q o ls (rw t at e) h.1
  ]

  -- An order that shows its next peak joins the list as a new one would.
  pub orders-requeue_at :
      (s : Side) (o o' : RestingOrder) (ls : List Level)
      → find_at o'.price id ls ≡ some o
      → count_id id (orders ls) ≡ 1
      → Ordered s ls
      → orders (requeue_at o'.price id o' ls) ≡ enqueue s o' (erase_id id (orders ls))
  unfolding find_at requeue_at
  orders-requeue_at s o o' [] e h v = cc
  orders-requeue_at s o o' (l ∷ ls) e h v = elim (Bool-cases (eqb_ℤ l.price o'.price)) [
    | inl t ↦ rw t (
        let same : l.price ≡ o'.price = eqb_ℤ→eq l.price o'.price t in
        append_assoc (erase_id id l.orders) (o' ∷ []) (orders ls)
        ∙ ap (λ zs. erase_id id l.orders ++ zs)
            (sym (
              enqueue-first s o' (orders ls)
                (Beyond-All s o'.price ls (subst (λ q. Beyond s q ls) same v.2) v.3)))
        ∙ sym (
            enqueue-past s o' (erase_id id l.orders) (orders ls) (
              Placed-All s o'.price l.price false (erase_id id l.orders)
                (subst (λ q. better s o'.price q ≡ false) (sym same) (better_irrefl s o'.price))
                (erase_id-All s l.price id l.orders v.1)))
        ∙ ap (enqueue s o') (sym (erase_id-here o l.orders (orders ls) (rw t at e))))
    | inr t ↦
        let there : find_at o'.price id ls ≡ some o = rw t at e in
        let absent : count_id id l.orders ≡ 0 = omega (
          arith,
          h,
          find_at-count o'.price id o ls there,
          sum_by-append (holds id) l.orders (orders ls),
        ) in
        let alone : count_id id (orders ls) ≡ 1 =
          omega (arith, h, absent, sum_by-append (holds id) l.orders (orders ls)) in
        rw t (
          ap (λ zs. l.orders ++ zs) (orders-requeue_at s o o' ls there alone v.3)
          ∙ sym (
              enqueue-past s o' l.orders (erase_id id (orders ls)) (
                Placed-All s o'.price l.price false l.orders
                  (better_asym s l.price o'.price
                    (find_at-Beyond s o'.price l.price o ls there v.2))
                  v.1))
          ∙ ap (enqueue s o') (sym (erase_id-past l.orders (orders ls) absent)))
  ]
