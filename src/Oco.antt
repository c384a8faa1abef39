-- ===== src/Oco.antt =====
-- One-cancels-the-other groups, OcoBook of venue/include/flox-venue/engine/oco.h.
-- The two hash maps are functions of their key. `unlink` asks first whether any order is grouped,
-- and then looks the order up; the lookup alone answers the same.
use venue_core.Prelude.{
  ℕ, Bool, true, false, Option, none, some, List, [], ◌∷◌, ◌++◌, is_empty, leb, ◌==◌, if◌then◌else◌,
}
pub mod Agree

pub record OcoBook : Type 0 where
  pub group : ℕ → Option ℕ
  pub members : ℕ → Option (List ℕ)
  pub pending : List (ℕ × ℕ)

abbrev pub empty_oco : OcoBook
empty_oco = record { group = λ id. none; members = λ g. none; pending = [] }

abbrev pub set_at {ℓ} : {A : Type ℓ} → (ℕ → A) → ℕ → A → ℕ → A
set_at f k v n = if n == k then v else f n

-- `members_[group]`, which inserts an empty list for a new group.
abbrev pub members_or_empty : Option (List ℕ) → List ℕ
members_or_empty none = []
members_or_empty (some v) = v

unfoldable pub link : ℕ → ℕ → OcoBook → OcoBook
link id g b = record b {
  group = set_at b.group id (some g);
  members = set_at b.members g (some (members_or_empty (b.members g) ++ (id ∷ [])));
}

abbrev pub remove : ℕ → List ℕ → List ℕ
remove id [] = []
remove id (x ∷ v) = if x == id then remove id v else x ∷ remove id v

-- What a group keeps of its members: a group without members is erased.
abbrev pub kept : List ℕ → Option (List ℕ)
kept v = if is_empty v then none else some v

unfoldable pub unlink : ℕ → OcoBook → OcoBook
unlink id b = elim (b.group id) [
  | none ↦ b
  | some g ↦ record b {
    group = set_at b.group id none;
    members = elim (b.members g) [
      | none ↦ b.members
      | some v ↦ set_at b.members g (kept (remove id v))
    ];
  }
]

abbrev pub group_of : ℕ → OcoBook → ℕ
group_of id b = elim (b.group id) [ none ↦ 0 | some g ↦ g ]

abbrev pub noted : ℕ → OcoBook → List (ℕ × ℕ)
noted id b = elim (b.group id) [ none ↦ [] | some g ↦ (g, id) ∷ [] ]

unfoldable pub note_fill : ℕ → ℕ → OcoBook → OcoBook
note_fill maker taker b = record b { pending = b.pending ++ noted maker b ++ noted taker b }

abbrev pub insert_sorted : ℕ → List ℕ → List ℕ
insert_sorted x [] = x ∷ []
insert_sorted x (y ∷ v) = if leb x y then x ∷ y ∷ v else y ∷ insert_sorted x v

abbrev pub sort_ids : List ℕ → List ℕ
sort_ids [] = []
sort_ids (x ∷ v) = insert_sorted x (sort_ids v)

unfoldable pub erase_all : List ℕ → (ℕ → Option ℕ) → ℕ → Option ℕ
erase_all [] group = group
erase_all (id ∷ ids) group = erase_all ids (set_at group id none)

-- One decided group: its members other than the winner lose, and it is dissolved.
unfoldable pub resolve : ℕ → ℕ → OcoBook → OcoBook × List ℕ
unfolding erase_all
resolve g winner b = elim (b.members g) [
  | none ↦ (b, [])
  | some v ↦ (
    record b { members = set_at b.members g none; group = erase_all (sort_ids v) b.group },
    remove winner (sort_ids v),
  )
]

unfoldable pub resolve_all : List (ℕ × ℕ) → OcoBook → OcoBook × List ℕ
unfolding resolve
resolve_all [] b = (b, [])
resolve_all ((g, winner) ∷ rest) b =
    let (b', out) = resolve g winner b in
    let (b'', out') = resolve_all rest b' in (b'', out ++ out')

unfoldable pub drain_losers : OcoBook → OcoBook × List ℕ
unfolding resolve_all
drain_losers b = let (b', out) = resolve_all b.pending b in (record b' { pending = [] }, out)
