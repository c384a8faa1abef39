-- ===== src/Book/Priority.antt =====
-- The queue order of the resting book, venue/include/flox-venue/matching_book.h.
use venue_core.Prelude.{
  ℕ, ◌==◌, ◌≡◌, ◌≢◌, refl, false, none, some, Option, List, [], ◌∷◌, ◌++◌, arith, Bool-cases, inl,
  inr, ◌∙◌, sym, subst, ap, ap₂, if◌then◌else◌, sum_by-append, All, All-append, fun_ext, ==_iff,
}
use venue_core.Prelude.Int.{ℤ}
use venue_core.Types.{Side, buy, sell, RestingOrder}
use venue_core.Book.Levels.{
  Level, better, orders, push_order, find_at, erase_id, erase_at, keep_level, front_order, gone,
}
use venue_core.Book.Order.{Ordered, Placed, Beyond, better_ne, better_total, better_asym}
use venue_core.Book.Weight.{holds, count_id}
use venue_core.Book.Lookup.{find_at-push_self}
use venue_core.Book.Invariant.{WellFormed, side-Ordered, Located}
use venue_core.Book.Preserve.{eq_self}
use venue_core.Book.Operations.{Admissible, unused_side}
use venue_core.Book.Front.{Best, peek-Best}
use venue_core.Book.{Book, Loc, levels_of, apply_fate, add_resting, cancel, peek_best}

abbrev NoBetter : Side → ℤ → RestingOrder → Type 0
NoBetter s p x = better s x.price p ≡ false

better_irrefl : (s : Side) (p : ℤ) → better s p p ≡ false
better_irrefl buy p = ground arith
better_irrefl sell p = ground arith

level-NoBetter :
    (s : Side) (p q : ℤ) (os : List RestingOrder)
    → better s q p ≡ false
    → All (Placed s q) os
    → All (NoBetter s p) os
level-NoBetter s p q [] h v = tt
level-NoBetter s p q (o ∷ os) h v =
    (subst (λ r. better s r p ≡ false) (sym v.0.0) h, level-NoBetter s p q os h v.1)

Beyond-NoBetter :
    (s : Side) (p : ℤ) (ls : List Level)
    → Beyond s p ls
    → Ordered s ls
    → All (NoBetter s p) (orders ls)
Beyond-NoBetter s p [] h v = tt
Beyond-NoBetter s p (l ∷ ls) h v =
    All-append (NoBetter s p) l.orders (orders ls)
      (level-NoBetter s p l.price l.orders (better_asym s p l.price h.0) v.1)
      (Beyond-NoBetter s p ls h.1 v.3)

Ordered-NoBetter :
    (s : Side) (l : Level) (ls : List Level)
    → Ordered s (l ∷ ls)
    → All (NoBetter s l.price) (orders (l ∷ ls))
Ordered-NoBetter s l ls v =
    All-append (NoBetter s l.price) l.orders (orders ls)
      (level-NoBetter s l.price l.price l.orders (better_irrefl s l.price) v.1)
      (Beyond-NoBetter s l.price ls v.2 v.3)

-- On a well-formed book no order of a side has a better price than the one that peekBest returns.
pub peek_best-NoBetter :
    (s : Side) (b : Book) {o : RestingOrder}
    → WellFormed b
    → peek_best s b ≡ some o
    → All (λ x. better s x.price o.price ≡ false) (orders (levels_of s b))
peek_best-NoBetter s b {o} v e =
    let best : Best s o b = peek-Best s o b e in
    let shaped : Ordered s
        (record { price = best.best_price; orders = o ∷ best.behind } ∷ best.worse) =
      subst (Ordered s) best.shape (side-Ordered b v s) in
    subst (λ p. All (NoBetter s p) (orders (levels_of s b))) (sym shaped.1.0.0)
      (subst (λ ls. All (NoBetter s best.best_price) (orders ls)) (sym best.shape)
        (Ordered-NoBetter s (record { price = best.best_price; orders = o ∷ best.behind })
          best.worse shaped))

front-push :
    (s : Side) (p : ℤ) (o x : RestingOrder) (os : List RestingOrder) (ls : List Level)
    → front_order (push_order s p o (record { price = x.price; orders = x ∷ os } ∷ ls))
      ≡ some (if better s p x.price then o else x)
unfolding push_order
front-push s p o x os ls = ground arith

levels_of-add :
    (s : Side) (o : RestingOrder) (b : Book)
    → levels_of s (add_resting s o b).1
      ≡ push_order s o.price (record o { side = s }) (levels_of s b)
unfolding add_resting
levels_of-add buy o b = refl
levels_of-add sell o b = refl

-- An order that joins a side takes the front only by a strictly better price than the best order
-- of a well-formed book; at an equal price, or a worse one, the best order stays in front.
pub peek_best-add_resting :
    (s : Side) (o : RestingOrder) (b : Book) {x : RestingOrder}
    → WellFormed b
    → peek_best s b ≡ some x
    → peek_best s (add_resting s o b).1
      ≡ some (if better s o.price x.price then record o { side = s } else x)
unfolding peek_best
peek_best-add_resting s o b {x} v e =
    let best : Best s x b = peek-Best s x b e in
    let shaped : Ordered s
        (record { price = best.best_price; orders = x ∷ best.behind } ∷ best.worse) =
      subst (Ordered s) best.shape (side-Ordered b v s) in
    ap front_order (
      levels_of-add s o b
      ∙ ap (push_order s o.price (record o { side = s })) (
          best.shape
          ∙ ap (λ p. record { price = p; orders = x ∷ best.behind } ∷ best.worse)
              (sym shaped.1.0.0)))
    ∙ front-push s o.price (record o { side = s }) x best.behind best.worse

erase_id-append :
    (o : RestingOrder) (os : List RestingOrder)
    → count_id o.id os ≡ 0
    → erase_id o.id (os ++ (o ∷ [])) ≡ os
unfolding erase_id
erase_id-append o [] h = rw (eq_self o.id)
erase_id-append o (x ∷ os) h = ground (arith, erase_id-append o os)

keep_level-back :
    (l : Level) (ls : List Level) → l.orders ≢ [] → keep_level l.price l.orders ls ≡ l ∷ ls
keep_level-back l ls h = ground arith

erase-push :
    (s : Side) (p : ℤ) (o : RestingOrder) (ls : List Level)
    → count_id o.id (orders ls) ≡ 0
    → Ordered s ls
    → erase_at p o.id (push_order s p o ls) ≡ ls
unfolding erase_at push_order erase_id
erase-push s p o [] h v = ground arith
erase-push s p o (l ∷ ls) h v = ground (
  arith,
  eq_self o.id,
  erase-push s p o ls,
  erase_id-append o l.orders,
  sum_by-append (holds o.id) l.orders (orders ls),
  keep_level-back l ls v.0,
  better_ne s l.price p,
  better_total s p l.price,
)

unindex :
    (id : ℕ) (loc : Loc) (b : Book)
    → b.index id ≡ none
    → (λ j. if id == j then none else (if id == j then some loc else b.index j)) ≡ b.index
unindex id loc b h = fun_ext (λ j. elim (Bool-cases (id == j)) [
  | inl e ↦ rw e (sym h ∙ ap b.index ((==_iff id j).0 e))
  | inr e ↦ rw e
])

add_resting-index :
    (s : Side) (o : RestingOrder) (b : Book)
    → (add_resting s o b).1.index o.id ≡ some (record { side = s; price = o.price })
unfolding add_resting
add_resting-index s o b = rw (eq_self o.id)

-- Erasing what was added puts both sides back.
erase-added :
    (s : Side) (o : RestingOrder) (b : Book)
    → erase_at o.price o.id (levels_of s (add_resting s o b).1) ≡ levels_of s b
    → b.index o.id ≡ none
    → apply_fate (record { side = s; price = o.price }) o.id gone (add_resting s o b).1 ≡ b
unfolding add_resting
erase-added buy o b e i = λ k. record {
  bids = e k;
  asks = b.asks;
  index = unindex o.id (record { side = buy; price = o.price }) b i k;
}
erase-added sell o b e i = λ k. record {
  bids = b.bids;
  asks = e k;
  index = unindex o.id (record { side = sell; price = o.price }) b i k;
}

-- Adding an order under a fresh id and cancelling that id returns the order as it was added and
-- the very book that was there before, both sides and the index.
pub cancel-add_resting :
    (s : Side) (o : RestingOrder) (b : Book)
    → WellFormed b
    → Admissible o b
    → cancel o.id (add_resting s o b).1 ≡ (some (record o { side = s }), b)
unfolding cancel
cancel-add_resting s o b v a =
    rw (add_resting-index s o b, cancel)
      (ap₂ {C = Option RestingOrder × Book} (λ x c. (x, c)) found
        (erase-added s o b erased a.fresh))
  where
    unused : count_id o.id (orders (levels_of s b)) ≡ 0
    unused = unused_side o.id s b (subst (Located o.id b) a.fresh (v.indexed o.id))

    found : find_at o.price o.id (levels_of s (add_resting s o b).1) ≡ some (record o { side = s })
    found = rw (levels_of-add s o b) (
        find_at-push_self s o.price (record o { side = s }) (levels_of s b) unused
          (side-Ordered b v s))

    erased : erase_at o.price o.id (levels_of s (add_resting s o b).1) ≡ levels_of s b
    erased =
        rw (levels_of-add s o b)
          (erase-push s o.price (record o { side = s }) (levels_of s b) unused (side-Ordered b v s))
