-- ===== src/Rate/Ban.antt =====
-- The ban of include/flox/execution/rate_limit_policy.h.
use venue_core.Prelude.{
  ℕ, suc, ◌%◌, ◌≤◌, ◌<◌, ◌≡◌, refl, sym, subst, ltb, leb, Bool, true, false, ◌&&◌, if-split, List,
  [], ◌∷◌, All, arith,
}
use venue_core.Prelude.Int.{ℤ, pos, ◌+ℤ◌, ◌≤ℤ◌, ◌<ℤ◌, ltb_ℤ}
use venue_core.Rate.{ActionKind, RateLimitPolicy, word, check, maybe_arm_ban, rejected, try_consume}

try_consume-refused :
    (action : ActionKind) (now : ℤ) (scale : ℕ → ℕ) (p : RateLimitPolicy)
    → now <ℤ p.ban_until_ns
    → try_consume action now scale p ≡ (rejected p, false)
unfolding try_consume
try_consume-refused action now scale p h =
    let active : ltb_ℤ now p.ban_until_ns ≡ true = ground (arith, h) in
    rw (active, try_consume) refl

-- The refusal that fills the count starts the ban.
refused-arms :
    (action : ActionKind) (now : ℤ) (scale : ℕ → ℕ) (p : RateLimitPolicy)
    → p.ban_until_ns ≤ℤ now
    → 0 < p.ban_after
    → p.ban_after ≤ suc p.consecutive_rejects
    → suc p.consecutive_rejects < word
    → pos 0 <ℤ p.ban_duration_ns
    → (try_consume action now scale p).1 ≡ false
    → (try_consume action now scale p).0.ban_until_ns ≡ now +ℤ p.ban_duration_ns
unfolding try_consume maybe_arm_ban rejected
refused-arms action now scale p free some_ban filled fits_word lasts =
    let open_now : ltb_ℤ now p.ban_until_ns ≡ false = ground (arith, free) in
    let counted : suc p.consecutive_rejects % word ≡ suc p.consecutive_rejects =
      omega (arith, fits_word) in
    let arms : (ltb 0 p.ban_after
          && leb p.ban_after (suc p.consecutive_rejects % word)
          && ltb_ℤ (pos 0) p.ban_duration_ns)
        ≡ true =
      ground (arith, some_ban, filled, counted, lasts) in
    rw (open_now, arms)
      (if-split {A = RateLimitPolicy × Bool}
        (λ r. r.1 ≡ false → r.0.ban_until_ns ≡ now +ℤ p.ban_duration_ns)
        (check action now scale p.buckets).1 (λ e h. absurd (ground arith)) (λ e h. refl))

-- An attempt: the action, its time and how it scales the capacities.
abbrev pub Attempt : Type 0
Attempt = ActionKind × ℤ × (ℕ → ℕ)

-- The policy after the attempts, and what each of them was answered.
unfoldable pub attempt_all : List Attempt → RateLimitPolicy → RateLimitPolicy × List Bool
unfolding try_consume
attempt_all [] p = (p, [])
attempt_all ((action, now, scale) ∷ rest) p =
    let (p', admitted) = try_consume action now scale p in
    let (p'', answers) = attempt_all rest p' in (p'', admitted ∷ answers)

-- The deadline of the ban and the charges of all buckets are those of `p`.
abbrev pub Banned : RateLimitPolicy → RateLimitPolicy × List Bool → Type 0
Banned p (q, answers) =
    (q.ban_until_ns ≡ p.ban_until_ns)
    × (q.buckets ≡ p.buckets)
    × All (λ (admitted : Bool). admitted ≡ false) answers

Banned-attempt_all :
    (attempts : List Attempt) (p : RateLimitPolicy)
    → All (λ (a : Attempt). a.1 <ℤ p.ban_until_ns) attempts
    → Banned p (attempt_all attempts p)
unfolding attempt_all rejected
Banned-attempt_all [] p h = (refl, refl, tt)
Banned-attempt_all ((action, now, scale) ∷ rest) p h =
    rw (try_consume-refused action now scale p h.0) (
      let (deadline, charges, refused) = Banned-attempt_all rest (rejected p) h.1 in
      (deadline, charges, (refl, refused)))

-- Once an action is refused outside a ban, and with it the refusals in a row reach the number that
-- the ban asks for, every action is refused that is attempted before the ban's duration is over,
-- however many there are, and none of them moves the end of the ban or charges a bucket.
pub try_consume-bans :
    (action : ActionKind) (now : ℤ) (scale : ℕ → ℕ) (attempts : List Attempt) (p : RateLimitPolicy)
    → p.ban_until_ns ≤ℤ now
    → 0 < p.ban_after
    → p.ban_after ≤ suc p.consecutive_rejects
    → suc p.consecutive_rejects < word
    → pos 0 <ℤ p.ban_duration_ns
    → (try_consume action now scale p).1 ≡ false
    → All (λ (a : Attempt). a.1 <ℤ now +ℤ p.ban_duration_ns) attempts
    → (let banned = (try_consume action now scale p).0 in
        (banned.ban_until_ns ≡ now +ℤ p.ban_duration_ns)
        × Banned banned (attempt_all attempts banned))
try_consume-bans action now scale attempts p free some_ban filled fits_word lasts refused early =
    let until = refused-arms action now scale p free some_ban filled fits_word lasts refused in
    (
      until,
      Banned-attempt_all attempts (try_consume action now scale p).0
          (subst (λ t. All (λ (a : Attempt). a.1 <ℤ t) attempts) (sym until) early),
    )
