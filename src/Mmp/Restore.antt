-- ===== src/Mmp/Restore.antt =====
-- The fill windows in a checkpoint, MmpState::writeSnapshot and restoreFills of
-- venue/include/flox-venue/engine/mmp.h.
use venue_core.Prelude.{
  ℕ, ◌+◌, ◌≤◌, ◌<◌, ◌≡◌, refl, sym, ap, ap₂, subst, ◌∙◌, ◌==◌, ltb, Bool, true, false,
  if◌then◌else◌, Bool-cases, inl, inr, List, [], ◌∷◌, ◌++◌, append_assoc, append-nil, length,
  length-append, is_empty, sum_by-append, arith,
}
use venue_core.Mmp.{
  Fill, Window, MmpState, RestoreMmpFills, fill_batch, quantity, extend, restore_fills, write_from,
  write_fills, restore_all, empty_window, put_window,
}
use venue_core.Mmp.Sliding.{Summed, put_window-own}

extend-twice : (xs ys : List Fill) (w : Window) → extend ys (extend xs w) ≡ extend (xs ++ ys) w
extend-twice xs ys w =
    ap₂ {C = Window} (λ f s. record { fills = f; sum_raw = s }) (append_assoc w.fills xs ys)
      (omega (arith, sum_by-append quantity xs ys))

-- What reading batches of one account makes of its window.
Reads : ℕ → List Fill → Window → Bool × MmpState → Type 0
Reads account entries w (ok, m) = (ok ≡ true) × (m.fills account ≡ extend entries w)

restore_one :
    (account : ℕ) (entries more : List Fill) (records : List RestoreMmpFills) (m : MmpState)
    → length entries ≤ fill_batch
    → ((m' : MmpState)
        → m'.fills account ≡ extend entries (m.fills account)
        → Reads account more (m'.fills account) (restore_all records m'))
    → Reads account
        (entries ++ more)
        (m.fills account)
        (restore_all (record { account = account; entries = entries } ∷ records) m)
unfolding restore_all restore_fills Reads
restore_one account entries more records m le k =
    let m' : MmpState = put_window account (extend entries (m.fills account)) m in
    let own : m'.fills account ≡ extend entries (m.fills account) =
      put_window-own account (extend entries (m.fills account)) m in
    let rest = k m' own in
    let fits : ltb fill_batch (length entries) ≡ false = ground (arith, le) in
    rw fits (rest.0, rest.1 ∙ ap (extend more) own ∙ extend-twice entries more (m.fills account))

nothing_more : (account : ℕ) (m : MmpState) → Reads account [] (m.fills account) (true, m)
unfolding Reads
nothing_more account m =
    let w : Window = m.fills account in
    (
      refl,
      ap₂ {C = Window} (λ f s. record { fills = f; sum_raw = s }) (sym (append-nil w.fills))
          (omega arith),
    )

write_from-Reads :
    (account : ℕ) (batch rest : List Fill) (m : MmpState)
    → length batch < fill_batch
    → Reads account
        (batch ++ rest)
        (m.fills account)
        (restore_all (write_from account batch rest) m)
unfolding write_from restore_all
write_from-Reads account [] [] m h = nothing_more account m
write_from-Reads account (f ∷ batch) [] m h =
    restore_one account (f ∷ batch) [] [] m (omega (arith, h)) (λ m' own. nothing_more account m')
write_from-Reads account batch (f ∷ rest) m h =
    let batch' : List Fill = batch ++ (f ∷ []) in
    let size : length batch' ≡ length batch + 1 = length-append batch (f ∷ []) in
    subst
      (λ es.
        Reads account es (m.fills account) (restore_all (write_from account batch (f ∷ rest)) m))
      (append_assoc batch (f ∷ []) rest)
      (elim (Bool-cases (length batch' == fill_batch)) [
        | inl e ↦
            rw (e, write_from)
              (restore_one account batch' rest (write_from account [] rest) m
                (omega (arith, h, size))
                (λ m' own. write_from-Reads account [] rest m' (omega arith)))
        | inr e ↦
            rw (e, write_from) (write_from-Reads account batch' rest m (ground (arith, h, size)))
      ])

write_fills-from :
    (account : ℕ) (fills : List Fill)
    → (if is_empty fills then [] else write_from account [] fills) ≡ write_from account [] fills
unfolding write_from
write_fills-from account [] = refl
write_fills-from account (f ∷ fills) = refl

-- Recovery of the batches that were written for a window, into a window that is still empty,
-- accepts them all and gives back the very window, its fills in their order and its sum.
pub restore_all-write_fills :
    (account : ℕ) (w : Window) (m : MmpState)
    → Summed w
    → m.fills account ≡ empty_window
    → ((restore_all (write_fills account w) m).0 ≡ true)
      × ((restore_all (write_fills account w) m).1.fills account ≡ w)
unfolding write_fills Reads Summed
restore_all-write_fills account w m h e = rw (write_fills-from account w.fills) (
    let read = write_from-Reads account [] w.fills m (omega arith) in
    (
      read.0,
      read.1
          ∙ ap (extend w.fills) e
          ∙ ap (λ s. record { fills = w.fills; sum_raw = s }) (omega (arith, h)),
    ))
