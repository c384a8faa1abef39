-- ===== src/Ids/Window.antt =====
-- Submissions within one window, ClOrdIdWindow of venue/include/flox-venue/engine/clordid_window.h.
use venue_core.Prelude.{
  ℕ, ◌≡◌, ◌≢◌, refl, ◌⊎◌, inl, inr, Bool, true, false, List, [], ◌∷◌, All, subst, ◌==◌, if-split,
  arith,
}
use venue_core.Prelude.Int.{ℤ, pos, ltb_ℤ, leb_ℤ, eqb_ℤ, ◌-ℤ◌, ◌+ℤ◌, ◌≤ℤ◌, ◌<ℤ◌, +ℤ_parts, -ℤ_parts}
use venue_core.Ids.{Generations, count, insert, rotate, seen_before, Accounts, duplicate}

-- The id is in the newer half, or in the older one since a rotation no earlier than `start`.
unfoldable pub Guarded : ℕ → ℤ → Generations → Type 0
Guarded id start w =
    (count id w.cur ≡ true) ⊎ ((count id w.prev ≡ true) × (start ≤ℤ w.rotated_at_ns))

count-insert : (id : ℕ) (ids : List ℕ) → count id (insert id ids) ≡ true
count-insert id ids = if-split (λ r. count id r ≡ true) (count id ids) (λ e. e) (λ e. ground arith)

insert-count : (id n : ℕ) (ids : List ℕ) → count id ids ≡ true → count id (insert n ids) ≡ true
insert-count id n ids h =
    if-split (λ r. count id r ≡ true) (count n ids) (λ e. h) (λ e. ground arith)

rotate-Guarded :
    (id : ℕ) (start now window : ℤ) (w : Generations)
    → pos 0 <ℤ start
    → start ≤ℤ now
    → now <ℤ start +ℤ window
    → Guarded id start w
    → Guarded id start (rotate now window w)
unfolding Guarded rotate
rotate-Guarded id start now window w positive le less h =
    if-split (Guarded id start) (leb_ℤ window (pos 0)) (λ e. h)
      (λ e.
        if-split (Guarded id start) (eqb_ℤ w.rotated_at_ns (pos 0))
          (λ e1. elim h [ inl c ↦ inl c | inr (p, s) ↦ inr (p, le) ])
          (λ e1.
            if-split (Guarded id start) (ltb_ℤ (now -ℤ w.rotated_at_ns) window) (λ e2. h)
              (λ e2. elim h [
                | inl c ↦ inr (c, le)
                | inr (p, s) ↦
                    inl (ground (arith, +ℤ_parts start window, -ℤ_parts now w.rotated_at_ns))
              ])))

seen_before-Guarded :
    (id n : ℕ) (start now window : ℤ) (w : Generations)
    → pos 0 <ℤ start
    → start ≤ℤ now
    → now <ℤ start +ℤ window
    → Guarded id start w
    → Guarded id start (seen_before n now window w).1
unfolding Guarded seen_before
seen_before-Guarded id n start now window w positive le less h =
    let w' = rotate now window w in
    let h' : Guarded id start w' = rotate-Guarded id start now window w positive le less h in
    if-split {A = Bool × Generations} (λ r. Guarded id start r.1) (count n w'.prev) (λ e. h')
      (λ e. elim h' [ inl c ↦ inl (insert-count id n w'.cur c) | inr p ↦ inr p ])

Guarded-seen :
    (id : ℕ) (start now window : ℤ) (w : Generations)
    → pos 0 <ℤ start
    → start ≤ℤ now
    → now <ℤ start +ℤ window
    → Guarded id start w
    → (seen_before id now window w).0 ≡ true
unfolding Guarded seen_before
Guarded-seen id start now window w positive le less h =
    let w' = rotate now window w in
    let h' : Guarded id start w' = rotate-Guarded id start now window w positive le less h in
    if-split {A = Bool × Generations} (λ r. r.0 ≡ true) (count id w'.prev) (λ e. refl)
      (λ e. elim h' [ inl c ↦ c | inr p ↦ ground (arith, p.0) ])

accepted-Guarded :
    (id : ℕ) (now window : ℤ) (w : Generations)
    → (seen_before id now window w).0 ≡ false
    → Guarded id now (seen_before id now window w).1
unfolding Guarded seen_before
accepted-Guarded id now window w =
    let w' = rotate now window w in
    if-split {A = Bool × Generations} (λ r. r.0 ≡ false → Guarded id now r.1) (count id w'.prev)
      (λ e h. ground arith) (λ e h. inl (count-insert id w'.cur))

-- A submission of any account.
pub record Submission : Type 0 where
  pub account : ℕ
  pub id : ℕ
  pub now_ns : ℤ

unfoldable pub submit_all : ℤ → List Submission → Accounts → Accounts
submit_all window [] accounts = accounts
submit_all window (m ∷ ms) accounts =
    submit_all window ms (duplicate m.account m.id m.now_ns window accounts).1

unfoldable pub Within : ℤ → ℤ → ℤ → Type 0
Within start window now = (start ≤ℤ now) × (now <ℤ start +ℤ window)

submit_all-Guarded :
    (account id : ℕ) (start window : ℤ) (ms : List Submission) (accounts : Accounts)
    → pos 0 <ℤ start
    → All (λ (m : Submission). Within start window m.now_ns) ms
    → Guarded id start (accounts account)
    → Guarded id start (submit_all window ms accounts account)
unfolding submit_all duplicate Within
submit_all-Guarded account id start window [] accounts positive within h = h
submit_all-Guarded account id start window (m ∷ ms) accounts positive within h =
    submit_all-Guarded account id start window ms _ positive within.1 (
      if-split {A = Bool × Accounts} (λ r. Guarded id start (r.1 account)) (m.id == 0) (λ e. h)
        (λ e.
          if-split (Guarded id start) (account == m.account)
            (λ e1.
              seen_before-Guarded id m.id start m.now_ns window _ positive within.0.0 within.0.1
                (subst (λ a. Guarded id start (accounts a)) (ground arith) h))
            (λ e1. h)))

duplicate-Guarded :
    (account id : ℕ) (start window : ℤ) (accounts : Accounts)
    → id ≢ 0
    → (duplicate account id start window accounts).0 ≡ false
    → Guarded id start ((duplicate account id start window accounts).1 account)
unfolding duplicate
duplicate-Guarded account id start window accounts nonzero =
    if-split {A = Bool × Accounts} (λ r. r.0 ≡ false → Guarded id start (r.1 account)) (id == 0)
      (λ e h. absurd (nonzero (ground arith)))
      (λ e h.
        if-split (Guarded id start) (account == account)
          (λ e1. accepted-Guarded id start window (accounts account) h) (λ e1. ground arith))

-- A client order id other than 0 that an account's submission was accepted with at a positive
-- time `start` is refused at any time less than a window later, whatever submissions of any
-- accounts come in between in that time.
pub duplicate_refused :
    (account id : ℕ) (start window now : ℤ) (ms : List Submission) (accounts : Accounts)
    → id ≢ 0
    → pos 0 <ℤ start
    → (duplicate account id start window accounts).0 ≡ false
    → All (λ (m : Submission). Within start window m.now_ns) ms
    → Within start window now
    → (let accepted = (duplicate account id start window accounts).1 in
        (duplicate account id now window (submit_all window ms accepted)).0 ≡ true)
unfolding duplicate Within
duplicate_refused account id start window now ms accounts nonzero positive accepted within last =
    let after = (duplicate account id start window accounts).1 in
    let guarded : Guarded id start (after account) =
      duplicate-Guarded account id start window accounts nonzero accepted in
    if-split {A = Bool × Accounts} (λ r. r.0 ≡ true) (id == 0) (λ e. ground arith)
      (λ e.
        Guarded-seen id start now window _ positive last.0 last.1
          (submit_all-Guarded account id start window ms after positive within guarded))
