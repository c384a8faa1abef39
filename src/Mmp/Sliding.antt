-- ===== src/Mmp/Sliding.antt =====
-- The sliding window of a maker, MmpState::add of venue/include/flox-venue/engine/mmp.h.
use venue_core.Prelude.{
  ℕ, ◌+◌, ◌-◌, ◌≡◌, refl, ◌==◌, ==_iff, leb, Bool, true, false, ◌||◌, if◌then◌else◌, if-split,
  Bool-cases, inl, inr, some, List, [], ◌∷◌, ◌++◌, All, All-append, sum_by, sum_by-append, arith,
}
use venue_core.Prelude.Int.{ℤ, leb_ℤ, ◌-ℤ◌, ◌≤ℤ◌}
use venue_core.Mmp.{
  Cfg, Fill, Window, MmpState, evict, queued, slide, note_breach, add, quantity, put_window,
}

-- The sum of a window is that of its fills.
unfoldable pub Summed : Window → Type 0
Summed w = w.sum_raw ≡ sum_by quantity w.fills

-- The quantity of the fills after a time.
abbrev pub younger : ℤ → Fill → ℕ
younger oldest f = if leb_ℤ f.0 oldest then 0 else f.1

-- Oldest first.
unfoldable pub Sorted : List Fill → Type 0
Sorted [] = Unit
Sorted (f ∷ rest) = All (λ (g : Fill). f.0 ≤ℤ g.0) rest × Sorted rest

abbrev pub NotAfter : ℤ → List Fill → Type 0
NotAfter now fills = All (λ (f : Fill). f.0 ≤ℤ now) fills

evict-Summed :
    (oldest : ℤ) (fills : List Fill) (sum : ℕ)
    → sum ≡ sum_by quantity fills
    → Summed (evict oldest fills sum)
unfolding evict Summed
evict-Summed oldest [] sum h = h
evict-Summed oldest ((t, q) ∷ rest) sum h =
    let rest' = evict-Summed oldest rest (sum - q) (omega (arith, h)) in
    if-split (λ (w : Window). w.sum_raw ≡ sum_by quantity w.fills) (leb_ℤ t oldest) (λ e. rest')
      (λ e. h)

no_older :
    (oldest t : ℤ) (fills : List Fill)
    → All (λ (f : Fill). t ≤ℤ f.0) fills
    → leb_ℤ t oldest ≡ false
    → sum_by quantity fills ≡ sum_by (younger oldest) fills
no_older oldest t [] h e = refl
no_older oldest t (f ∷ rest) h e =
    let late : leb_ℤ f.0 oldest ≡ false = ground (arith, h.0) in
    rw late (omega (arith, no_older oldest t rest h.1 e))

evict-younger :
    (oldest : ℤ) (fills : List Fill) (sum : ℕ)
    → Sorted fills
    → sum ≡ sum_by quantity fills
    → (evict oldest fills sum).sum_raw ≡ sum_by (younger oldest) fills
unfolding evict Sorted
evict-younger oldest [] sum s h = h
evict-younger oldest ((t, q) ∷ rest) sum s h =
    let rest' = evict-younger oldest rest (sum - q) s.1 (omega (arith, h)) in
    elim (Bool-cases (leb_ℤ t oldest)) [
      | inl e ↦ rw e (omega (arith, rest'))
      | inr e ↦ rw e (omega (arith, h, no_older oldest t rest s.0 e))
    ]

-- What is left of a list at its end.
evict-Sorted :
    (oldest : ℤ) (fills : List Fill) (sum : ℕ)
    → Sorted fills
    → Sorted (evict oldest fills sum).fills
unfolding evict Sorted
evict-Sorted oldest [] sum s = tt
evict-Sorted oldest ((t, q) ∷ rest) sum s =
    let rest' = evict-Sorted oldest rest (sum - q) s.1 in
    if-split (λ (w : Window). Sorted w.fills) (leb_ℤ t oldest) (λ e. rest') (λ e. s)

evict-NotAfter :
    (oldest now : ℤ) (fills : List Fill) (sum : ℕ)
    → NotAfter now fills
    → NotAfter now (evict oldest fills sum).fills
unfolding evict
evict-NotAfter oldest now [] sum h = tt
evict-NotAfter oldest now ((t, q) ∷ rest) sum h =
    let rest' = evict-NotAfter oldest now rest (sum - q) h.1 in
    if-split (λ (w : Window). NotAfter now w.fills) (leb_ℤ t oldest) (λ e. rest') (λ e. h)

Sorted-append :
    (fills : List Fill) (now : ℤ) (q : ℕ)
    → Sorted fills
    → NotAfter now fills
    → Sorted (fills ++ ((now, q) ∷ []))
unfolding Sorted
Sorted-append [] now q s h = (tt, tt)
Sorted-append (f ∷ rest) now q s h =
    (All-append _ rest ((now, q) ∷ []) s.0 (h.0, tt), Sorted-append rest now q s.1 h.1)

pub NotAfter-later :
    (now later : ℤ) (fills : List Fill) → now ≤ℤ later → NotAfter now fills → NotAfter later fills
NotAfter-later now later [] le h = tt
NotAfter-later now later (f ∷ rest) le h =
    (omega (arith, h.0, le), NotAfter-later now later rest le h.1)

-- What holds of a window between two fills.
pub record Kept (now : ℤ) (w : Window) : Type 0 where
  pub summed : Summed w
  pub sorted : Sorted w.fills
  pub past : NotAfter now w.fills

unfoldable pub WellFormed : ℤ → MmpState → Type 0
WellFormed now m = (account : ℕ) → Kept now (m.fills account)

appended-sum :
    (w : Window) (now : ℤ) (qty : ℕ)
    → Summed w
    → w.sum_raw + qty ≡ sum_by quantity (w.fills ++ ((now, qty) ∷ []))
unfolding Summed
appended-sum w now qty h = omega (arith, h, sum_by-append quantity w.fills ((now, qty) ∷ []))

pub slide-Kept :
    (c : Cfg) (qty : ℕ) (last now : ℤ) (w : Window)
    → last ≤ℤ now
    → Kept last w
    → Kept now (slide c qty now w)
unfolding slide
slide-Kept c qty last now w le h =
    let fills : List Fill = w.fills ++ ((now, qty) ∷ []) in
    let past : NotAfter now w.fills = NotAfter-later last now w.fills le h.past in
    record {
      summed =
          evict-Summed (now -ℤ c.window_ns) fills (w.sum_raw + qty)
            (appended-sum w now qty h.summed);
      sorted =
          evict-Sorted (now -ℤ c.window_ns) fills (w.sum_raw + qty)
            (Sorted-append w.fills now qty h.sorted past);
      past =
          evict-NotAfter (now -ℤ c.window_ns) now fills (w.sum_raw + qty)
            (All-append _ w.fills ((now, qty) ∷ []) past (omega arith, tt));
    }

queued-append :
    (account : ℕ) (breached : List ℕ) → queued account (breached ++ (account ∷ [])) ≡ true
queued-append account [] = rw ((==_iff account account).1 refl) refl
queued-append account (a ∷ breached) = rw (queued-append account breached) (always (a == account))
  where
    always : (b : Bool) → (b || true) ≡ true
    always b = ground arith

note_breach-queued :
    (c : Cfg) (account : ℕ) (w : Window) (breached : List ℕ)
    → queued account (note_breach c account w breached)
      ≡ (leb c.qty_limit w.sum_raw || queued account breached)
unfolding note_breach
note_breach-queued c account w breached = elim (Bool-cases (leb c.qty_limit w.sum_raw)) [
  | inl e ↦ rw e (
      if-split (λ l. queued account l ≡ true) (queued account breached) (λ f. f)
        (λ f. queued-append account breached))
  | inr e ↦ rw e refl
]

pub put_window-own :
    (account : ℕ) (w : Window) (m : MmpState) → (put_window account w m).fills account ≡ w
put_window-own account w m = rw ((==_iff account account).1 refl) refl

-- A fill of a protected account, no earlier than the ones before it, leaves in its window exactly
-- the quantity of the fills younger than the window, the new one included; and the account is due
-- to be pulled exactly if that quantity has reached the limit or it was due already.
pub add-protects :
    (account qty : ℕ) (last now : ℤ) (m : MmpState) (c : Cfg)
    → WellFormed last m
    → last ≤ℤ now
    → m.cfg account ≡ some c
    → (((add account qty now m).fills account).sum_raw
        ≡ sum_by (younger (now -ℤ c.window_ns)) ((m.fills account).fills ++ ((now, qty) ∷ [])))
      × (queued account (add account qty now m).breached ≡ (
          leb c.qty_limit ((add account qty now m).fills account).sum_raw
          || queued account m.breached))
unfolding add slide WellFormed
add-protects account qty last now m c h le e =
    let k : Kept last (m.fills account) = h account in
    let w : Window = m.fills account in
    let w' : Window = slide c qty now w in
    let own : (put_window account w' m).fills account ≡ w' = put_window-own account w' m in
    rw (e, add, own)
      (
        evict-younger (now -ℤ c.window_ns) (w.fills ++ ((now, qty) ∷ [])) (w.sum_raw + qty)
            (Sorted-append w.fills now qty k.sorted (NotAfter-later last now w.fills le k.past))
            (appended-sum w now qty k.summed),
        note_breach-queued c account w' m.breached,
      )
