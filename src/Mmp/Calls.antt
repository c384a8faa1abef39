-- ===== src/Mmp/Calls.antt =====
-- Histories of market-maker protection, venue/include/flox-venue/engine/mmp.h.
use venue_core.Prelude.{ℕ, refl, ◌==◌, if-split, Option-cases, inl, inr, List, [], ◌∷◌}
use venue_core.Prelude.Int.{ℤ, ◌≤ℤ◌}
use venue_core.Mmp.{
  Window, MmpState, empty_window, configure, add, rearm, rearm_all, clear_breached, enforce,
}
use venue_core.Mmp.Sliding.{Summed, Sorted, NotAfter-later, Kept, WellFormed, slide-Kept}

pub data Call : Type 0 where
  configures : ℕ → ℕ → ℤ → Call
  fills : ℕ → ℕ → ℤ → Call
  enforces : Call

unfoldable pub apply : Call → MmpState → MmpState
unfolding configure add enforce
apply (configures account limit window) m = configure account limit window m
apply (fills account qty now) m = add account qty now m
apply enforces m = enforce m

unfoldable pub apply_all : List Call → MmpState → MmpState
unfolding apply
apply_all [] m = m
apply_all (c ∷ calls) m = apply_all calls (apply c m)

-- The time of the last fill.
abbrev pub last_time : ℤ → List Call → ℤ
last_time now [] = now
last_time now (configures account limit window ∷ calls) = last_time now calls
last_time now (fills account qty t ∷ calls) = last_time t calls
last_time now (enforces ∷ calls) = last_time now calls

-- The fills come in the order of their times.
unfoldable pub InTime : ℤ → List Call → Type 0
InTime now [] = Unit
InTime now (configures account limit window ∷ calls) = InTime now calls
InTime now (fills account qty t ∷ calls) = (now ≤ℤ t) × InTime t calls
InTime now (enforces ∷ calls) = InTime now calls

empty-Kept : (now : ℤ) → Kept now empty_window
unfolding Summed Sorted
empty-Kept now = record { summed = refl; sorted = tt; past = tt }

Kept-later : (now later : ℤ) (w : Window) → now ≤ℤ later → Kept now w → Kept later w
Kept-later now later w le h = record {
  summed = h.summed;
  sorted = h.sorted;
  past = NotAfter-later now later w.fills le h.past;
}

add-WellFormed :
    (account qty : ℕ) (last now : ℤ) (m : MmpState)
    → last ≤ℤ now
    → WellFormed last m
    → WellFormed now (add account qty now m)
unfolding add WellFormed
add-WellFormed account qty last now m le h a = elim (Option-cases (m.cfg account)) [
  | inl e ↦ rw (e, add) (Kept-later last now (m.fills a) le (h a))
  | inr (c, e) ↦
      rw (e, add)
        (if-split (Kept now) (a == account)
          (λ _. slide-Kept c qty last now (m.fills account) le (h account))
          (λ _. Kept-later last now (m.fills a) le (h a)))
]

rearm_all-WellFormed :
    (now : ℤ) (accounts : List ℕ) (m : MmpState)
    → WellFormed now m
    → WellFormed now (rearm_all accounts m)
unfolding rearm_all rearm WellFormed
rearm_all-WellFormed now [] m h = h
rearm_all-WellFormed now (x ∷ accounts) m h =
    rearm_all-WellFormed now accounts (rearm x m)
      (λ a. if-split (Kept now) (a == x) (λ _. empty-Kept now) (λ _. h a))

-- Over any configurations, fills in the order of their times and enforcements, the running sum of
-- every window is the quantity of its fills, which are in the order of their times and none later
-- than the last.
pub apply_all-WellFormed :
    (now : ℤ) (calls : List Call) (m : MmpState)
    → InTime now calls
    → WellFormed now m
    → WellFormed (last_time now calls) (apply_all calls m)
unfolding apply_all InTime configure enforce clear_breached WellFormed
apply_all-WellFormed now [] m t h = h
apply_all-WellFormed now (configures account limit window ∷ calls) m t h =
    apply_all-WellFormed now calls (configure account limit window m) t h
apply_all-WellFormed now (fills account qty t1 ∷ calls) m t h =
    apply_all-WellFormed t1 calls (add account qty t1 m) t.1
      (add-WellFormed account qty now t1 m t.0 h)
apply_all-WellFormed now (enforces ∷ calls) m t h =
    apply_all-WellFormed now calls (enforce m) t (rearm_all-WellFormed now m.breached m h)
