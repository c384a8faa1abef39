-- ===== src/Ids.antt =====
-- The client order id window, venue/include/flox-venue/engine/clordid_window.h.
-- A set of ids is a list without a given order, the accounts are a function with the default
-- generations for an account not seen, and times are integers without a bound.
use venue_core.Prelude.{ℕ, Bool, true, false, ◌||◌, List, [], ◌∷◌, ◌==◌, if◌then◌else◌}
use venue_core.Prelude.Int.{ℤ, pos, ltb_ℤ, leb_ℤ, eqb_ℤ, ◌-ℤ◌}
pub mod Window

pub record Generations : Type 0 where
  pub cur : List ℕ
  pub prev : List ℕ
  pub rotated_at_ns : ℤ

abbrev pub fresh_generations : Generations
fresh_generations = record { cur = []; prev = []; rotated_at_ns = pos 0 }

abbrev pub count : ℕ → List ℕ → Bool
count id [] = false
count id (x ∷ ids) = if x == id then true else count id ids

-- `insert`; whether the id was new is `not (count id ids)`.
abbrev pub insert : ℕ → List ℕ → List ℕ
insert id ids = if count id ids then ids else id ∷ ids

unfoldable pub rotate : ℤ → ℤ → Generations → Generations
rotate now_ns window_ns w =
    if leb_ℤ window_ns (pos 0)
    then w
    else if eqb_ℤ w.rotated_at_ns (pos 0)
    then record w { rotated_at_ns = now_ns }
    else if ltb_ℤ (now_ns -ℤ w.rotated_at_ns) window_ns
    then w
    else record { cur = []; prev = w.cur; rotated_at_ns = now_ns }

abbrev pub Accounts : Type 0
Accounts = ℕ → Generations

abbrev pub put_account : Accounts → ℕ → Generations → Accounts
put_account accounts account g n = if n == account then g else accounts n

-- The answer for one account's generations, and what they become.
unfoldable pub seen_before : ℕ → ℤ → ℤ → Generations → Bool × Generations
unfolding rotate
seen_before id now_ns window_ns w0 =
    let w = rotate now_ns window_ns w0 in
    if count id w.prev then (true, w) else (count id w.cur, record w { cur = insert id w.cur })

unfoldable pub duplicate : ℕ → ℕ → ℤ → ℤ → Accounts → Bool × Accounts
unfolding seen_before
duplicate account id now_ns window_ns accounts =
    let (seen, g) = seen_before id now_ns window_ns (accounts account) in
    if id == 0 then (false, accounts) else (seen, put_account accounts account g)

abbrev pub insert_all : List ℕ → List ℕ → List ℕ
insert_all [] gen = gen
insert_all (id ∷ ids) gen = insert_all ids (insert id gen)

unfoldable pub restore : ℕ → ℕ → List ℕ → ℤ → Accounts → Accounts
restore account generation ids rotated_at_ns accounts =
    let g : Generations = accounts account in
    put_account accounts account (
      if generation == 0
      then record g { cur = insert_all ids g.cur; rotated_at_ns = rotated_at_ns }
      else record g { prev = insert_all ids g.prev; rotated_at_ns = rotated_at_ns })
