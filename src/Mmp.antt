-- ===== src/Mmp.antt =====
-- Market-maker protection, venue/include/flox-venue/engine/mmp.h, with mmpEnforce of
-- venue/include/flox-venue/engine/quote_mmp.inl. The two maps are functions of the account; a
-- window that was never touched is empty. The sum of a window stops at 0 where int64 would go on
-- below. The hash is not modelled.
pub mod Sliding
pub mod Restore
pub mod Calls
use venue_core.Prelude.{
  ℕ, ◌+◌, ◌-◌, ◌==◌, ltb, leb, Bool, true, false, ◌||◌, if◌then◌else◌, Option, none, some, List, [],
  ◌∷◌, ◌++◌, length, is_empty, sum_by,
}
use venue_core.Prelude.Int.{ℤ, leb_ℤ, ◌-ℤ◌}

pub record Cfg : Type 0 where
  pub qty_limit : ℕ
  pub window_ns : ℤ

-- A fill, its time and quantity.
abbrev pub Fill : Type 0
Fill = ℤ × ℕ

pub record Window : Type 0 where
  pub fills : List Fill
  pub sum_raw : ℕ

abbrev pub empty_window : Window
empty_window = record { fills = []; sum_raw = 0 }

pub record MmpState : Type 0 where
  pub cfg : ℕ → Option Cfg
  pub fills : ℕ → Window
  pub breached : List ℕ

abbrev pub fresh_state : MmpState
fresh_state = record { cfg = λ _. none; fills = λ _. empty_window; breached = [] }

abbrev pub put_window : ℕ → Window → MmpState → MmpState
put_window account w m = record m { fills = λ a. if a == account then w else m.fills a }

unfoldable pub configure : ℕ → ℕ → ℤ → MmpState → MmpState
configure account qty_limit window_ns m = record m {
  cfg = λ a.
      if a == account
      then some (record { qty_limit = qty_limit; window_ns = window_ns })
      else m.cfg a;
}

-- The loop that pops the fills which have left the window.
unfoldable pub evict : ℤ → List Fill → ℕ → Window
evict oldest [] sum = record { fills = []; sum_raw = sum }
evict oldest ((t, q) ∷ rest) sum =
    let later = evict oldest rest (sum - q) in
    if leb_ℤ t oldest then later else record { fills = (t, q) ∷ rest; sum_raw = sum }

abbrev pub queued : ℕ → List ℕ → Bool
queued account [] = false
queued account (a ∷ breached) = (a == account) || queued account breached

-- The window of one account after a fill.
unfoldable pub slide : Cfg → ℕ → ℤ → Window → Window
unfolding evict
slide c qty now w = evict (now -ℤ c.window_ns) (w.fills ++ ((now, qty) ∷ [])) (w.sum_raw + qty)

unfoldable pub note_breach : Cfg → ℕ → Window → List ℕ → List ℕ
note_breach c account w breached =
    if leb c.qty_limit w.sum_raw
    then (if queued account breached then breached else breached ++ (account ∷ []))
    else breached

unfoldable pub add : ℕ → ℕ → ℤ → MmpState → MmpState
unfolding slide note_breach
add account qty now m = elim (m.cfg account) [
  | none ↦ m
  | some c ↦
      let w = slide c qty now (m.fills account) in
      record (put_window account w m) { breached = note_breach c account w m.breached }
]

unfoldable pub rearm : ℕ → MmpState → MmpState
rearm account m = put_window account empty_window m

unfoldable pub clear_breached : MmpState → MmpState
clear_breached m = record m { breached = [] }

-- The protected accounts are rearmed in turn; what else the engine does about them is not state
-- of this component.
unfoldable pub rearm_all : List ℕ → MmpState → MmpState
unfolding rearm
rearm_all [] m = m
rearm_all (a ∷ accounts) m = rearm_all accounts (rearm a m)

unfoldable pub enforce : MmpState → MmpState
unfolding rearm_all clear_breached
enforce m = clear_breached (rearm_all m.breached m)

-- A batch of fills of an account, its valid entries.
pub record RestoreMmpFills : Type 0 where
  pub account : ℕ
  pub entries : List Fill

abbrev pub fill_batch : ℕ
fill_batch = 16

abbrev pub quantity : Fill → ℕ
quantity f = f.1

abbrev pub extend : List Fill → Window → Window
extend entries w = record {
  fills = w.fills ++ entries;
  sum_raw = w.sum_raw + sum_by quantity entries;
}

unfoldable pub restore_fills : RestoreMmpFills → MmpState → Bool × MmpState
restore_fills r m =
    if ltb fill_batch (length r.entries)
    then (false, m)
    else (true, put_window r.account (extend r.entries (m.fills r.account)) m)

-- The batches of one account: a full one is written, and what is left at the end.
unfoldable pub write_from : ℕ → List Fill → List Fill → List RestoreMmpFills
write_from account batch [] =
    if is_empty batch then [] else record { account = account; entries = batch } ∷ []
write_from account batch (f ∷ rest) =
    let batch' = batch ++ (f ∷ []) in
    let later = write_from account (if length batch' == fill_batch then [] else batch') rest in
    if length batch' == fill_batch
    then record { account = account; entries = batch' } ∷ later
    else later

unfoldable pub write_fills : ℕ → Window → List RestoreMmpFills
unfolding write_from
write_fills account w = if is_empty w.fills then [] else write_from account [] w.fills

-- Recovery stops at a malformed record.
unfoldable pub restore_all : List RestoreMmpFills → MmpState → Bool × MmpState
unfolding restore_fills
restore_all [] m = (true, m)
restore_all (r ∷ records) m =
    let (ok, m') = restore_fills r m in
    let rest = restore_all records m' in if ok then rest else (false, m')
