-- ===== src/Ledger/Flow.antt =====
-- Sequences of flows over the rows of the ledger, venue/include/flox-venue/ledger.h.
use venue_core.Prelude.{
  ℕ, ◌<◌, ◌≡◌, refl, ◌↔◌, ap, ap₂, ◌∙◌, Bool, true, false, ◌&&◌, List, [], ◌∷◌, All, ◌==◌,
  if◌then◌else◌, if-split, arith,
}
use venue_core.Prelude.Int.{ℤ, pos, ltb_ℤ, ◌+ℤ◌, ◌-ℤ◌, +ℤ_parts, -ℤ_parts, pos_parts, eq_of_parts}
use venue_core.Ledger.{
  Bal, Ledger, key, bal, put, total, deposit, reserve, release, spend_reserved, credit, debit,
}

-- An account id that fits 48 bits, and an asset id of 16.
unfoldable pub Fits : ℕ → ℕ → Type 0
Fits account asset = (account < 281474976710656) × (asset < 65536)

-- Two rows that fit share their key only when they are the same row.
pub key_injective :
    (account asset account' asset' : ℕ)
    → Fits account asset
    → Fits account' asset'
    → key account asset ≡ key account' asset'
    → (account ≡ account') × (asset ≡ asset')
unfolding key Fits
key_injective account asset account' asset' h h' e =
    (omega (arith, h, h', e), omega (arith, h, h', e))

-- The operations that move money on the live path.
pub data FlowKind : Type 0 where
  deposits reserves releases spends credits debits : FlowKind

pub record Flow : Type 0 where
  pub kind : FlowKind
  pub account : ℕ
  pub asset : ℕ
  pub raw : ℤ

unfoldable pub apply : FlowKind → ℕ → ℕ → ℤ → Ledger → Ledger
apply FlowKind.deposits account asset raw l = deposit l account asset raw
apply FlowKind.reserves account asset raw l = (reserve l account asset raw).1
apply FlowKind.releases account asset raw l = release l account asset raw
apply FlowKind.spends account asset raw l = spend_reserved l account asset raw
apply FlowKind.credits account asset raw l = credit l account asset raw
apply FlowKind.debits account asset raw l = (debit l account asset raw).1

-- What a flow adds to the total of its row: a debit that is refused takes nothing, and holding
-- money back or freeing it moves none.
unfoldable pub paid : FlowKind → Bal → ℤ → ℤ
paid FlowKind.deposits b raw = raw
paid FlowKind.reserves b raw = pos 0
paid FlowKind.releases b raw = pos 0
paid FlowKind.spends b raw = pos 0 -ℤ raw
paid FlowKind.credits b raw = raw
paid FlowKind.debits b raw = if ltb_ℤ b.avail raw then pos 0 else pos 0 -ℤ raw

abbrev pub same_row : ℕ → ℕ → ℕ → ℕ → Bool
same_row account asset account' asset' = (account == account') && (asset == asset')

unfoldable pub net_of : ℕ → ℕ → List Flow → Ledger → ℤ
net_of account asset [] l = pos 0
net_of account asset (f ∷ fs) l =
    (if same_row account asset f.account f.asset
      then paid f.kind (bal l f.account f.asset) f.raw
      else pos 0)
    +ℤ net_of account asset fs (apply f.kind f.account f.asset f.raw l)

unfoldable pub apply_all : List Flow → Ledger → Ledger
apply_all [] l = l
apply_all (f ∷ fs) l = apply_all fs (apply f.kind f.account f.asset f.raw l)

same_row_iff : (a c a' c' : ℕ) → (same_row a c a' c' ≡ true) ↔ ((a ≡ a') × (c ≡ c'))
same_row_iff a c a' c' = ground arith

+ℤ-zero : (a : ℤ) → a ≡ a +ℤ pos 0
+ℤ-zero a = eq_of_parts _ _ (omega (arith, +ℤ_parts a (pos 0), pos_parts 0))

-- The total of a row after one flow, read through its key.
put-total :
    (l : Ledger) (account asset account' asset' : ℕ) (b : Bal) (x : ℤ)
    → Fits account asset
    → Fits account' asset'
    → b.avail +ℤ b.rsvd ≡ total l account' asset' +ℤ x
    → total (put l account' asset' b) account asset
      ≡ total l account asset +ℤ (if same_row account asset account' asset' then x else pos 0)
put-total l account asset account' asset' b x h h' e =
    if-split
      (λ (r : Bal).
        r.avail +ℤ r.rsvd
        ≡ total l account asset +ℤ (if same_row account asset account' asset' then x else pos 0))
      (key account asset == key account' asset')
      (λ k.
        let (a_eq, c_eq) = key_injective account asset account' asset' h h' (ground arith) in
        rw (a_eq, c_eq, (same_row_iff account' asset' account' asset').1 (refl, refl)) e)
      (λ k.
        if-split (λ y. total l account asset ≡ total l account asset +ℤ y)
          (same_row account asset account' asset')
          (λ s. absurd (differ k ((same_row_iff account asset account' asset').0 s)))
          (λ s. +ℤ-zero _))
  where
    differ :
        (key account asset == key account' asset') ≡ false
        → (account ≡ account') × (asset ≡ asset')
        → ⊥
    differ k (a_eq, c_eq) = ground (arith, ap₂ key a_eq c_eq)

money_in : (a b x : ℤ) → (a +ℤ x) +ℤ b ≡ (a +ℤ b) +ℤ x
money_in a b x =
    eq_of_parts _ _
      (omega (arith, +ℤ_parts a x, +ℤ_parts (a +ℤ x) b, +ℤ_parts a b, +ℤ_parts (a +ℤ b) x))

money_spent : (a b x : ℤ) → a +ℤ (b -ℤ x) ≡ (a +ℤ b) +ℤ (pos 0 -ℤ x)
money_spent a b x = eq_of_parts _ _ (
    omega (
      arith,
      -ℤ_parts b x,
      +ℤ_parts a (b -ℤ x),
      +ℤ_parts a b,
      -ℤ_parts (pos 0) x,
      +ℤ_parts (a +ℤ b) (pos 0 -ℤ x),
      pos_parts 0,
    ))

money_debited : (a b x : ℤ) → (a -ℤ x) +ℤ b ≡ (a +ℤ b) +ℤ (pos 0 -ℤ x)
money_debited a b x = eq_of_parts _ _ (
    omega (
      arith,
      -ℤ_parts a x,
      +ℤ_parts (a -ℤ x) b,
      +ℤ_parts a b,
      -ℤ_parts (pos 0) x,
      +ℤ_parts (a +ℤ b) (pos 0 -ℤ x),
      pos_parts 0,
    ))

money_freed : (a b x : ℤ) → (a +ℤ x) +ℤ (b -ℤ x) ≡ (a +ℤ b) +ℤ pos 0
money_freed a b x = eq_of_parts _ _ (
    omega (
      arith,
      +ℤ_parts a x,
      -ℤ_parts b x,
      +ℤ_parts (a +ℤ x) (b -ℤ x),
      +ℤ_parts a b,
      +ℤ_parts (a +ℤ b) (pos 0),
      pos_parts 0,
    ))

money_held : (a b x : ℤ) → (a -ℤ x) +ℤ (b +ℤ x) ≡ (a +ℤ b) +ℤ pos 0
money_held a b x = eq_of_parts _ _ (
    omega (
      arith,
      -ℤ_parts a x,
      +ℤ_parts b x,
      +ℤ_parts (a -ℤ x) (b +ℤ x),
      +ℤ_parts a b,
      +ℤ_parts (a +ℤ b) (pos 0),
      pos_parts 0,
    ))

untouched : (s : Bool) (a : ℤ) → a ≡ a +ℤ (if s then pos 0 else pos 0)
untouched true a = +ℤ-zero a
untouched false a = +ℤ-zero a

-- A debit by its two outcomes.
taken :
    (refused s : Bool) (l l' : Ledger) (account asset : ℕ) (x : ℤ)
    → total l' account asset ≡ total l account asset +ℤ (if s then x else pos 0)
    → total (if◌then◌else◌ {A = Bool × Ledger} refused (false, l) (true, l')).1 account asset
      ≡ total l account asset +ℤ (if s then if refused then pos 0 else x else pos 0)
taken true s l l' account asset x e = untouched s _
taken false s l l' account asset x e = e

apply-total :
    (kind : FlowKind) (l : Ledger) (account asset account' asset' : ℕ) (raw : ℤ)
    → Fits account asset
    → Fits account' asset'
    → total (apply kind account' asset' raw l) account asset
      ≡ total l account asset
        +ℤ (if same_row account asset account' asset'
            then paid kind (bal l account' asset') raw
            else pos 0)
unfolding apply paid deposit reserve release spend_reserved credit debit
apply-total FlowKind.deposits l a c a' c' raw h h' =
    put-total l a c a' c' _ raw h h' (money_in _ _ _)
apply-total FlowKind.reserves l a c a' c' raw h h' =
    if-split {A = Bool × Ledger}
      (λ r. total r.1 a c ≡ total l a c +ℤ (if same_row a c a' c' then pos 0 else pos 0))
      (ltb_ℤ (bal l a' c').avail raw) (λ e. untouched (same_row a c a' c') _)
      (λ e. put-total l a c a' c' _ (pos 0) h h' (money_held _ _ _))
apply-total FlowKind.releases l a c a' c' raw h h' =
    put-total l a c a' c' _ (pos 0) h h' (money_freed _ _ _)
apply-total FlowKind.spends l a c a' c' raw h h' =
    put-total l a c a' c' _ (pos 0 -ℤ raw) h h' (money_spent _ _ _)
apply-total FlowKind.credits l a c a' c' raw h h' =
    put-total l a c a' c' _ raw h h' (money_in _ _ _)
apply-total FlowKind.debits l a c a' c' raw h h' =
    taken (ltb_ℤ (bal l a' c').avail raw) (same_row a c a' c') l _ a c (pos 0 -ℤ raw)
      (put-total l a c a' c' _ (pos 0 -ℤ raw) h h' (money_debited _ _ _))

+ℤ-assoc : (a b c : ℤ) → (a +ℤ b) +ℤ c ≡ a +ℤ (b +ℤ c)
+ℤ-assoc a b c =
    eq_of_parts _ _
      (omega (arith, +ℤ_parts a b, +ℤ_parts (a +ℤ b) c, +ℤ_parts b c, +ℤ_parts a (b +ℤ c)))

-- Whatever deposits, reservations, releases, payments, credits and debits follow each other, on
-- any rows whose ids fit, a row's total balance ends as it began plus the sum of what the flows
-- on that row paid in and out: a refused debit counts nothing, and neither do a reservation and a
-- release. So money moves only by deposits, credits, payments and debits, and only in their row.
pub apply_all-total :
    (fs : List Flow) (l : Ledger) (account asset : ℕ)
    → Fits account asset
    → All (λ (f : Flow). Fits f.account f.asset) fs
    → total (apply_all fs l) account asset ≡ total l account asset +ℤ net_of account asset fs l
unfolding apply_all net_of
apply_all-total [] l account asset h hs = +ℤ-zero _
apply_all-total (f ∷ fs) l account asset h hs =
    apply_all-total fs (apply f.kind f.account f.asset f.raw l) account asset h hs.1
    ∙ ap (λ x. x +ℤ net_of account asset fs (apply f.kind f.account f.asset f.raw l))
        (apply-total f.kind l account asset f.account f.asset f.raw h hs.0)
    ∙ +ℤ-assoc _ _ _
