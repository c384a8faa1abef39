-- ===== src/Oco/Agree.antt =====
-- The two indexes of OcoBook, venue/include/flox-venue/engine/oco.h.
use venue_core.Prelude.{
  ℕ, Bool, true, false, ◌||◌, ◌&&◌, not, Option, none, some, List, [], ◌∷◌, ◌++◌, ◌==◌, ◌≡◌, refl,
  sym, ◌∙◌, ap, if◌then◌else◌, if-split, Option-cases, inl, inr, arith,
}
use venue_core.Oco.{
  OcoBook, empty_oco, set_at, members_or_empty, link, remove, kept, unlink, note_fill,
  insert_sorted, sort_ids, erase_all, resolve, resolve_all, drain_losers,
}

abbrev pub has : ℕ → List ℕ → Bool
has id [] = false
has id (x ∷ v) = if x == id then true else has id v

abbrev pub listed : ℕ → Option (List ℕ) → Bool
listed id none = false
listed id (some v) = has id v

abbrev pub names : ℕ → Option ℕ → Bool
names g none = false
names g (some k) = k == g

-- An order's entry names a group exactly when the group's members list the order.
unfoldable pub Agree : OcoBook → Type 0
Agree b = (id g : ℕ) → listed id (b.members g) ≡ names g (b.group id)

has-append : (id : ℕ) (v w : List ℕ) → has id (v ++ w) ≡ has id v || has id w
has-append id [] w = refl
has-append id (x ∷ v) w = ground (arith, has-append id v w)

has-remove : (id k : ℕ) (v : List ℕ) → has id (remove k v) ≡ (has id v && not (id == k))
has-remove id k [] = refl
has-remove id k (x ∷ v) = ground (arith, has-remove id k v)

listed-kept : (id : ℕ) (v : List ℕ) → listed id (kept v) ≡ has id v
listed-kept id [] = refl
listed-kept id (x ∷ v) = refl

has-insert_sorted : (id x : ℕ) (v : List ℕ) → has id (insert_sorted x v) ≡ has id (x ∷ v)
has-insert_sorted id x [] = refl
has-insert_sorted id x (y ∷ v) = ground (arith, has-insert_sorted id x v)

has-sort_ids : (id : ℕ) (v : List ℕ) → has id (sort_ids v) ≡ has id v
has-sort_ids id [] = refl
has-sort_ids id (x ∷ v) = ground (arith, has-insert_sorted id x (sort_ids v), has-sort_ids id v)

erase_all-has :
    (ids : List ℕ) (group : ℕ → Option ℕ) (id : ℕ)
    → erase_all ids group id ≡ (if has id ids then none else group id)
unfolding erase_all
erase_all-has [] group id = refl
erase_all-has (x ∷ ids) group id = ground (arith, erase_all-has ids (set_at group x none) id)

members_or_empty-has : (id : ℕ) (o : Option (List ℕ)) → has id (members_or_empty o) ≡ listed id o
members_or_empty-has id none = refl
members_or_empty-has id (some v) = refl

names_unique : (g k : ℕ) (o : Option ℕ) → names g o ≡ true → (k == g) ≡ false → names k o ≡ false
names_unique g k none e d = refl
names_unique g k (some x) e d = ground arith

same_names : (g k : ℕ) (o : Option ℕ) → (k == g) ≡ true → names g o ≡ names k o
same_names g k o e = ap (λ n. names n o) (ground arith)

link-Agree : (id g : ℕ) (b : OcoBook) → Agree b → b.group id ≡ none → Agree (link id g b)
unfolding Agree link
link-Agree id g b h fresh i k =
    if-split (λ o. listed i o ≡ names k (set_at b.group id (some g) i)) (k == g)
      (λ e.
        if-split (λ o. has i (members_or_empty (b.members g) ++ (id ∷ [])) ≡ names k o) (i == id)
          (λ d. ground (arith, has-append i (members_or_empty (b.members g)) (id ∷ [])))
          (λ d. joined d ∙ h i g ∙ same_names g k (b.group i) e))
      (λ e.
        if-split (λ o. listed i (b.members k) ≡ names k o) (i == id)
          (λ d. h i k ∙ ap (names k) (ap b.group (ground arith) ∙ fresh) ∙ ground arith)
          (λ d. h i k))
  where
    joined :
        (i == id) ≡ false
        → has i (members_or_empty (b.members g) ++ (id ∷ [])) ≡ listed i (b.members g)
    joined d = ground (
      arith,
      has-append i (members_or_empty (b.members g)) (id ∷ []),
      members_or_empty-has i (b.members g),
    )

unlink-Agree : (id : ℕ) (b : OcoBook) → Agree b → Agree (unlink id b)
unfolding Agree unlink
unlink-Agree id b h i k = elim (Option-cases (b.group id)) [
  | inl e ↦ rw (e, unlink) (h i k)
  | inr (g, e) ↦ elim (Option-cases (b.members g)) [
    | inl n ↦ absurd (unlisted g e n)
    | inr (v, n) ↦ rw (e, unlink, n) (left_group g v e n)
  ]
]
  where
    unlisted : (g : ℕ) → b.group id ≡ some g → b.members g ≡ none → ⊥
    unlisted g e n = ground (arith, sym (ap (listed id) n) ∙ h id g ∙ ap (names g) e)

    left_group :
        (g : ℕ) (v : List ℕ)
        → b.group id ≡ some g
        → b.members g ≡ some v
        → listed i (set_at b.members g (kept (remove id v)) k) ≡ names k (set_at b.group id none i)
    left_group g v e n =
        if-split (λ o. listed i o ≡ names k (set_at b.group id none i)) (k == g)
          (λ c.
            if-split (λ o. listed i (kept (remove id v)) ≡ names k o) (i == id)
              (λ d. ground (arith, listed-kept i (remove id v), has-remove i id v))
              (λ d. still d ∙ sym (ap (listed i) n) ∙ h i g ∙ same_names g k (b.group i) c))
          (λ c.
            if-split (λ o. listed i (b.members k) ≡ names k o) (i == id)
              (λ d. h i k ∙ ap (names k) (ap b.group (ground arith) ∙ e) ∙ ground arith)
              (λ d. h i k))
      where
        still : (i == id) ≡ false → listed i (kept (remove id v)) ≡ has i v
        still d = ground (arith, listed-kept i (remove id v), has-remove i id v)

resolve-Agree : (g winner : ℕ) (b : OcoBook) → Agree b → Agree (resolve g winner b).0
unfolding Agree resolve
resolve-Agree g winner b h i k = elim (Option-cases (b.members g)) [
  | inl e ↦ rw (e, resolve) (h i k)
  | inr (v, e) ↦
      rw (e, resolve) (rw (erase_all-has (sort_ids v) b.group i, has-sort_ids i v) (dissolved v e))
]
  where
    dissolved :
        (v : List ℕ)
        → b.members g ≡ some v
        → listed i (set_at b.members g none k) ≡ names k (if has i v then none else b.group i)
    dissolved v e =
        let member : has i v ≡ names g (b.group i) = sym (ap (listed i) e) ∙ h i g in
        if-split (λ o. listed i o ≡ names k (if has i v then none else b.group i)) (k == g)
          (λ c.
            if-split (λ o. false ≡ names k o) (has i v) (λ f. refl)
              (λ f. sym f ∙ member ∙ same_names g k (b.group i) c))
          (λ c.
            if-split (λ o. listed i (b.members k) ≡ names k o) (has i v)
              (λ f. h i k ∙ names_unique g k (b.group i) (sym member ∙ f) c) (λ f. h i k))

resolve_all-Agree : (rest : List (ℕ × ℕ)) (b : OcoBook) → Agree b → Agree (resolve_all rest b).0
unfolding resolve_all
resolve_all-Agree [] b h = h
resolve_all-Agree ((g, winner) ∷ rest) b h =
    resolve_all-Agree rest (resolve g winner b).0 (resolve-Agree g winner b h)

-- One call: only an order that is in no group is linked.
pub data Step (b : OcoBook) : OcoBook → Type 0 where
  links : (id g : ℕ) → b.group id ≡ none → Step b (link id g b)
  unlinks : (id : ℕ) → Step b (unlink id b)
  notes : (maker taker : ℕ) → Step b (note_fill maker taker b)
  drains : Step b (drain_losers b).0

pub data Reach : OcoBook → Type 0 where
  start : Reach empty_oco
  next : {b b' : OcoBook} → Reach b → Step b b' → Reach b'

Step-Agree : (b b' : OcoBook) → Step b b' → Agree b → Agree b'
unfolding Agree note_fill drain_losers
Step-Agree b b' (links id g fresh) h = link-Agree id g b h fresh
Step-Agree b b' (unlinks id) h = unlink-Agree id b h
Step-Agree b b' (notes maker taker) h = h
Step-Agree b b' drains h = resolve_all-Agree b.pending b h

-- Whatever links of ungrouped orders, unlinks, fills and resolutions follow each other from an
-- empty book, the two indexes agree: an order's entry names a group exactly when the list of that
-- group's members has the order.
pub Reach-Agree : {b : OcoBook} → Reach b → Agree b
unfolding Agree
Reach-Agree start = λ id g. refl
Reach-Agree (next {b = b} {b' = b'} r st) = Step-Agree b b' st (Reach-Agree r)
