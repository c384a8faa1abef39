-- ===== src/Tests/Limits.antt =====
-- Market-maker protection at concrete inputs.
use venue_core.Prelude.{◌≡◌, refl, true, List, [], ◌∷◌, ◌||◌, leb, sum_by, arith}
use venue_core.Prelude.Int.{pos, pos_part, neg_part, ◌-ℤ◌}
use venue_core.Mmp.{
  Cfg, Window, MmpState, fresh_state, configure, add, queued, restore_all, write_fills,
}
use venue_core.Mmp.Sliding.{Summed, Sorted, WellFormed, younger, add-protects}
use venue_core.Mmp.Calls.{
  Call, configures, fills, enforces, apply_all, InTime, last_time, apply_all-WellFormed,
}
use venue_core.Mmp.Restore.{restore_all-write_fills}

fresh-WellFormed : WellFormed (pos 0) fresh_state
unfolding WellFormed Summed Sorted
fresh-WellFormed account = record { summed = refl; sorted = tt; past = tt }

abbrev maker_calls : List Call
maker_calls = configures 7 10 (pos 5) ∷ fills 7 4 (pos 1) ∷ fills 7 6 (pos 8) ∷ enforces ∷ []

apply_all-WellFormed_example :
    WellFormed (last_time (pos 0) maker_calls) (apply_all maker_calls fresh_state)
unfolding maker_calls InTime pos_part neg_part
apply_all-WellFormed_example =
    apply_all-WellFormed (pos 0) maker_calls fresh_state (omega arith, (omega arith, tt))
      fresh-WellFormed

abbrev limit : Cfg
limit = record { qty_limit = 10; window_ns = pos 5 }

abbrev protected_state : MmpState
unfolding configure limit
protected_state = configure 7 10 (pos 5) fresh_state

add-protects_example :
    (((add 7 4 (pos 3) protected_state).fills 7).sum_raw
      ≡ sum_by (younger (pos 3 -ℤ pos 5)) ((pos 3, 4) ∷ []))
    × (queued 7 (add 7 4 (pos 3) protected_state).breached ≡ (
        leb 10 ((add 7 4 (pos 3) protected_state).fills 7).sum_raw
        || queued 7 protected_state.breached))
unfolding protected_state pos_part neg_part configure WellFormed
add-protects_example =
    add-protects 7 4 (pos 0) (pos 3) protected_state limit fresh-WellFormed (omega arith) refl

abbrev busy_window : Window
busy_window = record { fills = (pos 1, 4) ∷ (pos 2, 5) ∷ []; sum_raw = 9 }

restore_all-write_fills_example :
    ((restore_all (write_fills 7 busy_window) fresh_state).0 ≡ true)
    × ((restore_all (write_fills 7 busy_window) fresh_state).1.fills 7 ≡ busy_window)
unfolding Summed
restore_all-write_fills_example =
    restore_all-write_fills 7 busy_window fresh_state (omega arith) refl
