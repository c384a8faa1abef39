-- ===== src/Book/Front.antt =====
-- fillFront of venue/include/flox-venue/matching_book.h beside consumeById.
use venue_core.Prelude.{ℕ, ◌≡◌, refl, true, none, some, Option, List, [], ◌∷◌, ◌++◌, arith}
use venue_core.Prelude.Int.{ℤ, eqb_ℤ}
use venue_core.Types.{Side, RestingOrder}
use venue_core.Book.Levels.{
  Level, find_at, find_id, update_at, update_id, erase_at, erase_id, requeue_at, settle, Fate,
  stays, requeued, gone, fill_front, fill_orders, keep_level,
}
use venue_core.Book.Preserve.{eq_self}
use venue_core.Book.{Book, Loc, levels_of, deref, apply_fate, consume_by_id, fill_best, peek_best}

-- The best order of a side, as the list of levels shows it.
pub record Best (s : Side) (o : RestingOrder) (b : Book) : Type 0 where
  pub best_price : ℤ
  pub behind : List RestingOrder
  pub worse : List Level
  pub shape : levels_of s b ≡ record { price = best_price; orders = o ∷ behind } ∷ worse

pub peek-Best : (s : Side) (o : RestingOrder) (b : Book) → peek_best s b ≡ some o → Best s o b
unfolding peek_best
peek-Best s o b e = go (levels_of s b) refl
  where
    go : (ls : List Level) → levels_of s b ≡ ls → Best s o b
    go [] f = absurd (ground arith)
    go (l ∷ ls) f = inner l.orders refl
      where
        inner : (os : List RestingOrder) → l.orders ≡ os → Best s o b
        inner [] g = absurd (ground arith)
        inner (x ∷ os) g = record {
          best_price = l.price;
          behind = os;
          worse = ls;
          shape = ground arith;
        }

price_self : (p : ℤ) → eqb_ℤ p p ≡ true
price_self p = ground arith

best-find :
    (p : ℤ) (o : RestingOrder) (os : List RestingOrder) (ls : List Level)
    → find_at p o.id (record { price = p; orders = o ∷ os } ∷ ls) ≡ some o
unfolding find_at find_id
best-find p o os ls = rw (price_self p, eq_self o.id)

abbrev fronted : ℤ → RestingOrder → List Level → Option Fate → Option (List Level × Option ℕ)
fronted p o ls none = none
fronted p o ls (some (stays o')) = some (update_at p o.id (λ _. o') ls, none)
fronted p o ls (some (requeued o')) = some (requeue_at p o.id o' ls, none)
fronted p o ls (some gone) = some (erase_at p o.id ls, some o.id)

module _ (p : ℤ) (o : RestingOrder) (os : List RestingOrder) (ls : List Level) where
  abbrev front : List Level
  front = record { price = p; orders = o ∷ os } ∷ ls

  front-update :
      (o' : RestingOrder)
      → update_at p o.id (λ _. o') front ≡ record { price = p; orders = o' ∷ os } ∷ ls
  unfolding update_at update_id
  front-update o' = rw (price_self p, eq_self o.id)

  front-requeue :
      (o' : RestingOrder)
      → requeue_at p o.id o' front ≡ record { price = p; orders = os ++ (o' ∷ []) } ∷ ls
  unfolding requeue_at erase_id
  front-requeue o' = rw (price_self p, eq_self o.id)

  front-erase : erase_at p o.id front ≡ keep_level p os ls
  unfolding erase_at erase_id
  front-erase = rw (price_self p, eq_self o.id)

  fill_front-front :
      (by : ℕ) {x : Option Fate} → settle o by ≡ x → fill_front by front ≡ fronted p o front x
  unfolding fill_front fill_orders
  fill_front-front by {x = none} e = rw (e, fill_orders)
  fill_front-front by {x = some (stays o')} e = rw (e, fill_orders) (rw (front-update o'))
  fill_front-front by {x = some (requeued o')} e = rw (e, fill_orders) (rw (front-requeue o'))
  fill_front-front by {x = some gone} e = rw (e, fill_orders) (rw front-erase)

abbrev pub fated : Loc → ℕ → Book → Option Fate → Option Book
fated loc id b none = none
fated loc id b (some fate) = some (apply_fate loc id fate b)

module _ (s : Side) (o : RestingOrder) (b : Book) (by : ℕ) (best : Best s o b) where
  abbrev pub best_loc : Loc
  best_loc = record { side = s; price = best.best_price }

  fill_front-best :
      {x : Option Fate}
      → settle o by ≡ x
      → fill_front by (levels_of s b) ≡ fronted best.best_price o (levels_of s b) x
  fill_front-best e = rw best.shape (fill_front-front best.best_price o best.behind best.worse by e)

  -- `fillFront` is what `consumeById` does to the order at the front.
  pub fill_best-fated :
      {x : Option Fate} → settle o by ≡ x → fill_best s by b ≡ fated best_loc o.id b x
  unfolding fill_best
  fill_best-fated {x = none} e = rw (fill_front-best e, fill_best)
  fill_best-fated {x = some (stays o')} e = rw (fill_front-best e, fill_best)
  fill_best-fated {x = some (requeued o')} e = rw (fill_front-best e, fill_best)
  fill_best-fated {x = some gone} e = rw (fill_front-best e, fill_best)

  pub best-deref : deref best_loc o.id b ≡ some o
  best-deref = rw best.shape (best-find best.best_price o best.behind best.worse)

  pub consume-fated :
      {x : Option Fate}
      → b.index o.id ≡ some best_loc
      → settle o by ≡ x
      → consume_by_id o.id by b ≡ fated best_loc o.id b x
  unfolding consume_by_id
  consume-fated {x = none} i e = rw (i, consume_by_id, best-deref, e)
  consume-fated {x = some fate} i e = rw (i, consume_by_id, best-deref, e)
