-- ===== src/Ledger.antt =====
-- The account ledger, the class of venue/include/flox-venue/ledger.h. The table of balances is a
-- function of the packed key, an absent row having two zero balances, which is both what
-- `operator[]` inserts and what the readers answer. An Amount is an integer without a bound.
use venue_core.Prelude.{ℕ, ◌+◌, ◌*◌, ◌%◌, Bool, true, false, ◌==◌, if◌then◌else◌}
use venue_core.Prelude.Int.{ℤ, pos, ltb_ℤ, ◌+ℤ◌, ◌-ℤ◌}
pub mod Flow

pub record Bal : Type 0 where
  pub avail : ℤ
  pub rsvd : ℤ

abbrev pub Ledger : Type 0
Ledger = ℕ → Bal

abbrev pub empty_ledger : Ledger
empty_ledger k = record { avail = pos 0; rsvd = pos 0 }

-- (account << 16) | asset, on uint64_t, for an asset of 16 bits.
unfoldable pub key : ℕ → ℕ → ℕ
key account asset = (account * 65536) % 18446744073709551616 + asset

abbrev pub write : Ledger → ℕ → Bal → Ledger
write l k b n = if n == k then b else l n

abbrev pub bal : Ledger → ℕ → ℕ → Bal
bal l account asset = l (key account asset)

abbrev pub put : Ledger → ℕ → ℕ → Bal → Ledger
put l account asset b = write l (key account asset) b

abbrev pub available : Ledger → ℕ → ℕ → ℤ
available l account asset = (bal l account asset).avail

abbrev pub reserved : Ledger → ℕ → ℕ → ℤ
reserved l account asset = (bal l account asset).rsvd

abbrev pub total : Ledger → ℕ → ℕ → ℤ
total l account asset = (bal l account asset).avail +ℤ (bal l account asset).rsvd

unfoldable pub deposit : Ledger → ℕ → ℕ → ℤ → Ledger
deposit l account asset raw =
    let b = bal l account asset in put l account asset (record b { avail = b.avail +ℤ raw })

unfoldable pub reserve : Ledger → ℕ → ℕ → ℤ → Bool × Ledger
reserve l account asset raw =
    let b = bal l account asset in
    if ltb_ℤ b.avail raw
    then (false, l)
    else (true, put l account asset (record { avail = b.avail -ℤ raw; rsvd = b.rsvd +ℤ raw }))

unfoldable pub release : Ledger → ℕ → ℕ → ℤ → Ledger
release l account asset raw =
    let b = bal l account asset in
    let m = if ltb_ℤ raw b.rsvd then raw else b.rsvd in
    put l account asset (record { avail = b.avail +ℤ m; rsvd = b.rsvd -ℤ m })

unfoldable pub spend_reserved : Ledger → ℕ → ℕ → ℤ → Ledger
spend_reserved l account asset raw =
    let b = bal l account asset in put l account asset (record b { rsvd = b.rsvd -ℤ raw })

unfoldable pub credit : Ledger → ℕ → ℕ → ℤ → Ledger
credit l account asset raw =
    let b = bal l account asset in put l account asset (record b { avail = b.avail +ℤ raw })

unfoldable pub restore : Ledger → ℕ → ℕ → ℤ → ℤ → Ledger
restore l account asset avail rsvd = put l account asset (record { avail = avail; rsvd = rsvd })

unfoldable pub debit : Ledger → ℕ → ℕ → ℤ → Bool × Ledger
debit l account asset raw =
    let b = bal l account asset in
    if ltb_ℤ b.avail raw
    then (false, l)
    else (true, put l account asset (record b { avail = b.avail -ℤ raw }))
