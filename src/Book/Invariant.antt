-- ===== src/Book/Invariant.antt =====
-- The invariant of venue/include/flox-venue/matching_book.h, and edits of one side that concern
-- one id.
use venue_core.Prelude.{
  ℕ, ◌+◌, ◌<◌, ◌==◌, ◌≡◌, refl, false, none, some, Option, List, sum_by, arith, Bool-cases, inl,
  inr, ◌∙◌, subst, ==_iff,
}
use venue_core.Prelude.Int.{ℤ}
use venue_core.Types.{Side, buy, sell, RestingOrder}
use venue_core.Book.Levels.{Level, orders, find_at}
use venue_core.Book.Order.{Ordered}
use venue_core.Book.Weight.{holds, count_id}
use venue_core.Book.Lookup.{find_at-count}
use venue_core.Book.{Book, Loc, empty_book, levels_of, with_levels, deref}

-- A weight summed over both sides.
abbrev pub tally : (RestingOrder → ℕ) → Book → ℕ
tally w b = sum_by w (orders b.bids) + sum_by w (orders b.asks)

-- What the index says of an id is true: no order has it, or exactly one has, at that place.
abbrev pub Located : ℕ → Book → Option Loc → Type 0
Located id b none = tally (holds id) b ≡ 0
Located id b (some loc) =
    ((o : RestingOrder) × (deref loc id b ≡ some o)) × (tally (holds id) b ≡ 1)

pub record WellFormed (b : Book) : Type 0 where
  pub bids_ordered : Ordered buy b.bids
  pub asks_ordered : Ordered sell b.asks
  pub indexed : (id : ℕ) → Located id b (b.index id)

pub empty_book-WellFormed : WellFormed empty_book
empty_book-WellFormed = record { bids_ordered = tt; asks_ordered = tt; indexed = λ id. refl }

pub side-Ordered : (b : Book) → WellFormed b → (s : Side) → Ordered s (levels_of s b)
side-Ordered b v buy = v.bids_ordered
side-Ordered b v sell = v.asks_ordered

pub tally-with_levels :
    (w : RestingOrder → ℕ) (s : Side) (ls : List Level) (b : Book)
    → tally w (with_levels s ls b) + sum_by w (orders (levels_of s b))
      ≡ tally w b + sum_by w (orders ls)
tally-with_levels w buy ls b = omega arith
tally-with_levels w sell ls b = omega arith

pub levels_of-with_levels :
    (s : Side) (ls : List Level) (b : Book) → levels_of s (with_levels s ls b) ≡ ls
levels_of-with_levels buy ls b = refl
levels_of-with_levels sell ls b = refl

abbrev pub reindex : (ℕ → Option Loc) → Book → Book
reindex f b = record b { index = f }

deref-with_levels :
    (s t : Side) (q : ℤ) (j : ℕ) (ls : List Level) (b : Book) (f : ℕ → Option Loc)
    → ((p : ℤ) → find_at p j ls ≡ find_at p j (levels_of s b))
    → find_at q j (levels_of t (reindex f (with_levels s ls b))) ≡ find_at q j (levels_of t b)
deref-with_levels buy buy q j ls b f h = h q
deref-with_levels buy sell q j ls b f h = refl
deref-with_levels sell buy q j ls b f h = refl
deref-with_levels sell sell q j ls b f h = h q

-- What an edit of a side leaves as it was, seen from an id that it does not concern.
pub record Untouched (s : Side) (ls : List Level) (b : Book) (f : ℕ → Option Loc) (j : ℕ)
    : Type 0 where
  pub same_index : f j ≡ b.index j
  pub same_count : count_id j (orders ls) ≡ count_id j (orders (levels_of s b))
  pub same_find : (q : ℤ) → find_at q j ls ≡ find_at q j (levels_of s b)

Untouched-Located :
    (s : Side) (ls : List Level) (b : Book) (f : ℕ → Option Loc) (j : ℕ) (x : Option Loc)
    → Untouched s ls b f j
    → Located j b x
    → Located j (reindex f (with_levels s ls b)) x
Untouched-Located s ls b f j none u h =
    omega (arith, tally-with_levels (holds j) s ls b, u.same_count)
Untouched-Located s ls b f j (some loc) u h = (
  (h.0.0, deref-with_levels s loc.side loc.price j ls b f u.same_find ∙ h.0.1),
  omega (arith, tally-with_levels (holds j) s ls b, u.same_count),
)

replaced_bids :
    (s : Side) (ls : List Level) (b : Book)
    → WellFormed b
    → Ordered s ls
    → Ordered buy (with_levels s ls b).bids
replaced_bids buy ls b v o = o
replaced_bids sell ls b v o = v.bids_ordered

replaced_asks :
    (s : Side) (ls : List Level) (b : Book)
    → WellFormed b
    → Ordered s ls
    → Ordered sell (with_levels s ls b).asks
replaced_asks buy ls b v o = v.asks_ordered
replaced_asks sell ls b v o = o

-- An edit of one side that concerns one id keeps the invariant if the index is right about it.
pub replace-WellFormed :
    (s : Side) (ls : List Level) (b : Book) (f : ℕ → Option Loc) (k : ℕ)
    → WellFormed b
    → Ordered s ls
    → ((j : ℕ) → (k == j) ≡ false → Untouched s ls b f j)
    → Located k (reindex f (with_levels s ls b)) (f k)
    → WellFormed (reindex f (with_levels s ls b))
replace-WellFormed s ls b f k v o others own = record {
  bids_ordered = replaced_bids s ls b v o;
  asks_ordered = replaced_asks s ls b v o;
  indexed = λ j. elim (Bool-cases (k == j)) [
    | inl e ↦ subst (λ i. Located i (reindex f (with_levels s ls b)) (f i)) ((==_iff k j).0 e) own
    | inr e ↦
        rw ((others j e).same_index)
          (Untouched-Located s ls b f j (b.index j) (others j e) (v.indexed j))
  ];
}

pub deref-replaced :
    (s : Side) (q : ℤ) (id : ℕ) (ls : List Level) (b : Book) (f : ℕ → Option Loc)
    → find_at q id (levels_of s (reindex f (with_levels s ls b))) ≡ find_at q id ls
deref-replaced buy q id ls b f = refl
deref-replaced sell q id ls b f = refl

-- An order that a lookup of a side finds is at the place that the index names.
pub found-counted :
    (t : Side) (q : ℤ) (id : ℕ) (o : RestingOrder) (b : Book)
    → find_at q id (levels_of t b) ≡ some o
    → 0 < tally (holds id) b
found-counted buy q id o b e = omega (arith, find_at-count q id o b.bids e)
found-counted sell q id o b e = omega (arith, find_at-count q id o b.asks e)
