-- ===== src/Book/Weight.antt =====
-- Sums over the orders of a side, and what each edit does to them. A weight counts an id, or
-- measures displayed or total quantity.
use venue_core.Prelude.{
  ℕ, ◌+◌, ◌==◌, ◌≡◌, some, List, [], ◌∷◌, ◌++◌, sum_by, sum_by-append, arith, if◌then◌else◌,
}
use venue_core.Prelude.Int.{ℤ}
use venue_core.Types.{Side, RestingOrder}
use venue_core.Book.Levels.{
  Level, orders, push_order, find_id, update_id, erase_id, find_at, update_at, erase_at, requeue_at,
  keep_level,
}

-- How often an id stands in a list of orders.
abbrev pub holds : ℕ → RestingOrder → ℕ
holds id o = if o.id == id then 1 else 0

abbrev pub count_id : ℕ → List RestingOrder → ℕ
count_id id os = sum_by (holds id) os

module _ (w : RestingOrder → ℕ) where
  pub sum-push :
      (s : Side) (p : ℤ) (o : RestingOrder) (ls : List Level)
      → sum_by w (orders (push_order s p o ls)) ≡ sum_by w (orders ls) + w o
  unfolding push_order
  sum-push s p o [] = omega arith
  sum-push s p o (l ∷ ls) = ground (
    arith,
    sum-push s p o ls,
    sum_by-append w l.orders (orders ls),
    sum_by-append w l.orders (orders (push_order s p o ls)),
    sum_by-append w (l.orders ++ (o ∷ [])) (orders ls),
    sum_by-append w l.orders (o ∷ []),
  )

  sum-update_id :
      (id : ℕ) (f : RestingOrder → RestingOrder) (o : RestingOrder) (os : List RestingOrder)
      → find_id id os ≡ some o
      → sum_by w (update_id id f os) + w o ≡ sum_by w os + w (f o)
  unfolding find_id update_id
  sum-update_id id f o [] e = cc
  sum-update_id id f o (x ∷ os) e = ground (arith, sum-update_id id f o os)

  pub sum-erase_id :
      (id : ℕ) (o : RestingOrder) (os : List RestingOrder)
      → find_id id os ≡ some o
      → sum_by w (erase_id id os) + w o ≡ sum_by w os
  unfolding find_id erase_id
  sum-erase_id id o [] e = cc
  sum-erase_id id o (x ∷ os) e = ground (arith, sum-erase_id id o os)

  pub sum-update :
      (p : ℤ) (id : ℕ) (f : RestingOrder → RestingOrder) (o : RestingOrder) (ls : List Level)
      → find_at p id ls ≡ some o
      → sum_by w (orders (update_at p id f ls)) + w o ≡ sum_by w (orders ls) + w (f o)
  unfolding find_at update_at
  sum-update p id f o [] e = cc
  sum-update p id f o (l ∷ ls) e = ground (
    arith,
    sum-update p id f o ls,
    sum-update_id id f o l.orders,
    sum_by-append w l.orders (orders ls),
    sum_by-append w (update_id id f l.orders) (orders ls),
    sum_by-append w l.orders (orders (update_at p id f ls)),
  )

  pub sum-keep_level :
      (p : ℤ) (os : List RestingOrder) (ls : List Level)
      → sum_by w (orders (keep_level p os ls)) ≡ sum_by w os + sum_by w (orders ls)
  sum-keep_level p [] ls = omega arith
  sum-keep_level p (o ∷ os) ls = sum_by-append w (o ∷ os) (orders ls)

  pub sum-erase :
      (p : ℤ) (id : ℕ) (o : RestingOrder) (ls : List Level)
      → find_at p id ls ≡ some o
      → sum_by w (orders (erase_at p id ls)) + w o ≡ sum_by w (orders ls)
  unfolding find_at erase_at
  sum-erase p id o [] e = cc
  sum-erase p id o (l ∷ ls) e = ground (
    arith,
    sum-erase p id o ls,
    sum-erase_id id o l.orders,
    sum_by-append w l.orders (orders ls),
    sum-keep_level l.price (erase_id id l.orders) ls,
    sum_by-append w l.orders (orders (erase_at p id ls)),
  )

  pub sum-requeue :
      (p : ℤ) (id : ℕ) (o o' : RestingOrder) (ls : List Level)
      → find_at p id ls ≡ some o
      → sum_by w (orders (requeue_at p id o' ls)) + w o ≡ sum_by w (orders ls) + w o'
  unfolding find_at requeue_at
  sum-requeue p id o o' [] e = cc
  sum-requeue p id o o' (l ∷ ls) e = ground (
    arith,
    sum-requeue p id o o' ls,
    sum-erase_id id o l.orders,
    sum_by-append w l.orders (orders ls),
    sum_by-append w (erase_id id l.orders ++ (o' ∷ [])) (orders ls),
    sum_by-append w (erase_id id l.orders) (o' ∷ []),
    sum_by-append w l.orders (orders (requeue_at p id o' ls)),
  )
