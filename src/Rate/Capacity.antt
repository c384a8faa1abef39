-- ===== src/Rate/Capacity.antt =====
-- The counters of the buckets of include/flox/execution/rate_limit_policy.h.
use venue_core.Prelude.{
  ℕ, ◌+◌, ◌-◌, ◌%◌, ◌≤◌, ◌<◌, ◌≡◌, refl, sym, subst, ltb, leb, Bool, true, false, ◌&&◌, if-split,
  List, [], ◌∷◌, All, All-append, All-imp, sum_by, sum_by-append, arith,
}
use venue_core.Prelude.Int.{ℤ, pos, ◌-ℤ◌, ltb_ℤ, leb_ℤ}
use venue_core.Rate.{
  ActionKind, submit, cancel, replace, query_account, query_market_data, Bucket, RateLimitPolicy,
  word, family_of, same_family, pick_weight, add_bucket, set_ban, evict, evicted, check, charge,
  commit, maybe_arm_ban, rejected, try_consume, evict_all, bucket_states,
}

abbrev pub total : List (ℤ × ℕ) → ℕ
total charges = sum_by (λ c. c.1) charges

-- The counter is the weight of the charges kept, within the capacity; no charge can wrap it.
abbrev pub Sound : Bucket → Type 0
Sound b =
    (b.used ≡ total b.consumed)
    × (b.used ≤ b.capacity)
    × ((action : ActionKind) → pick_weight b action + b.capacity < word)

evict-total :
    (cutoff : ℤ) (charges : List (ℤ × ℕ)) (used : ℕ)
    → used ≡ total charges
    → used < word
    → ((evict cutoff charges used).1 ≡ total (evict cutoff charges used).0)
      × ((evict cutoff charges used).1 ≤ used)
unfolding evict
evict-total cutoff [] used same lt = (same, omega arith)
evict-total cutoff ((t, w) ∷ rest) used same lt =
    let lowered : (used + word - w) % word ≡ total rest = omega (arith, same, lt) in
    let next = evict-total cutoff rest ((used + word - w) % word) lowered (omega arith) in
    if-split {A = List (ℤ × ℕ) × ℕ} (λ r. (r.1 ≡ total r.0) × (r.1 ≤ used)) (leb_ℤ t cutoff)
      (λ e. (next.0, omega (arith, next, lowered, same))) (λ e. (same, omega arith))

evicted-Sound : (now : ℤ) (b : Bucket) → Sound b → Sound (evicted now b)
unfolding evicted
evicted-Sound now b h =
    let room = h.2 ActionKind.submit in
    let kept = evict-total (now -ℤ b.window_ns) b.consumed b.used h.0 (omega (arith, h.1, room)) in
    (kept.0, omega (arith, kept.1, h.1), h.2)

-- After a check that all buckets passed, each bucket of the action's family has room for it.
abbrev Ready : ActionKind → Bool → Bucket → Type 0
Ready action passed b =
    Sound b
    × (passed ≡ true
        → same_family b.endpoint_family (family_of action) ≡ true
        → b.used + pick_weight b action ≤ b.capacity)

check-Ready :
    (action : ActionKind) (now : ℤ) (scale : ℕ → ℕ) (bs : List Bucket)
    → ((c : ℕ) → scale c ≤ c)
    → All Sound bs
    → All (Ready action (check action now scale bs).1) (check action now scale bs).0
unfolding check evicted
check-Ready action now scale [] small h = tt
check-Ready action now scale (b ∷ bs) small h =
    let rest = check-Ready action now scale bs small h.1 in
    let sound = evicted-Sound now b h.0 in
    if-split {A = List Bucket × Bool} (λ r. All (Ready action r.1) r.0)
      (same_family b.endpoint_family (family_of action))
      (λ mine.
        if-split {A = List Bucket × Bool} (λ r. All (Ready action r.1) r.0)
          (ltb (scale b.capacity) (((evicted now b).used + pick_weight b action) % word))
          (λ full. (
            (sound, λ e f. absurd (ground arith)),
            All-imp Sound (Ready action false) bs (λ c s. (s, λ e f. absurd (ground arith))) h.1,
          ))
          (λ fits. (
            (sound, λ e f. ground (arith, small b.capacity, sound.1, sound.2 action, fits)),
            rest,
          )))
      (λ other. ((h.0, λ e f. absurd (ground (arith, f, other))), rest))

charge-Sound :
    (action : ActionKind) (now : ℤ) (b : Bucket) → Ready action true b → Sound (charge action now b)
unfolding charge
charge-Sound action now b h =
    if-split Sound (same_family b.endpoint_family (family_of action))
      (λ mine.
        let room = h.1 refl mine in
        let word_room = h.0.2 action in
        let added = sum_by-append (λ c. c.1) b.consumed ((now, pick_weight b action) ∷ []) in
        (omega (arith, h.0.0, added, room, word_room), omega (arith, room, word_room), h.0.2))
      (λ other. h.0)

commit-Sound :
    (action : ActionKind) (now : ℤ) (bs : List Bucket)
    → All (Ready action true) bs
    → All Sound (commit action now bs)
unfolding commit
commit-Sound action now [] h = tt
commit-Sound action now (b ∷ bs) h = (charge-Sound action now b h.0, commit-Sound action now bs h.1)

maybe_arm_ban-buckets : (now : ℤ) (p : RateLimitPolicy) → (maybe_arm_ban now p).buckets ≡ p.buckets
unfolding maybe_arm_ban
maybe_arm_ban-buckets now p =
    if-split {A = RateLimitPolicy} (λ q. q.buckets ≡ p.buckets)
      (ltb 0 p.ban_after
        && leb p.ban_after p.consecutive_rejects
        && ltb_ℤ (pos 0) p.ban_duration_ns)
      (λ e. refl) (λ e. refl)

try_consume-Sound :
    (action : ActionKind) (now : ℤ) (scale : ℕ → ℕ) (p : RateLimitPolicy)
    → ((c : ℕ) → scale c ≤ c)
    → All Sound p.buckets
    → All Sound (try_consume action now scale p).0.buckets
unfolding try_consume rejected
try_consume-Sound action now scale p small h =
    let checked = check-Ready action now scale p.buckets small h in
    let left : List Bucket = (check action now scale p.buckets).0 in
    if-split {A = RateLimitPolicy × Bool} (λ r. All Sound r.0.buckets) (ltb_ℤ now p.ban_until_ns)
      (λ banned. h)
      (λ free.
        if-split {A = RateLimitPolicy × Bool} (λ r. All Sound r.0.buckets)
          (check action now scale p.buckets).1
          (λ fits.
            commit-Sound action now left (subst (λ b. All (Ready action b) left) fits checked))
          (λ full.
            subst (All Sound)
              (sym (maybe_arm_ban-buckets now (rejected (record p { buckets = left }))))
              (All-imp (Ready action (check action now scale p.buckets).1) Sound left (λ b r. r.0)
                checked)))

evict_all-Sound : (now : ℤ) (bs : List Bucket) → All Sound bs → All Sound (evict_all now bs)
unfolding evict_all
evict_all-Sound now [] h = tt
evict_all-Sound now (b ∷ bs) h = (evicted-Sound now b h.0, evict_all-Sound now bs h.1)

pub data Call : Type 0 where
  adds : Bucket → Call
  bans : ℕ → ℤ → Call
  consumes : ActionKind → ℤ → (ℕ → ℕ) → Call
  reads : ℤ → Call

-- The new bucket cannot wrap, and no attempt scales a capacity up.
abbrev pub Legal : Call → Type 0
Legal (adds b) = (action : ActionKind) → pick_weight b action + b.capacity < word
Legal (bans after duration) = Unit
Legal (consumes action now scale) = (c : ℕ) → scale c ≤ c
Legal (reads now) = Unit

unfoldable pub apply : Call → RateLimitPolicy → RateLimitPolicy
apply (adds b) p = add_bucket b p
apply (bans after duration) p = set_ban after duration p
apply (consumes action now scale) p = (try_consume action now scale p).0
apply (reads now) p = bucket_states now p

unfoldable pub apply_all : List Call → RateLimitPolicy → RateLimitPolicy
unfolding apply
apply_all [] p = p
apply_all (c ∷ cs) p = apply_all cs (apply c p)

pick_weight-fresh :
    (b : Bucket) (action : ActionKind)
    → pick_weight (record b { used = 0; consumed = [] }) action ≡ pick_weight b action
pick_weight-fresh b submit = refl
pick_weight-fresh b cancel = refl
pick_weight-fresh b replace = refl
pick_weight-fresh b query_account = refl
pick_weight-fresh b query_market_data = refl

apply-Sound :
    (c : Call) (p : RateLimitPolicy) → Legal c → All Sound p.buckets → All Sound (apply c p).buckets
unfolding apply add_bucket set_ban bucket_states
apply-Sound (adds b) p legal h =
    All-append Sound p.buckets (record b { used = 0; consumed = [] } ∷ []) h (
      (
        refl,
        omega arith,
        λ action.
            subst (λ w. w + b.capacity < word) (sym (pick_weight-fresh b action)) (legal action),
      ),
      tt,
    )
apply-Sound (bans after duration) p legal h = h
apply-Sound (consumes action now scale) p legal h = try_consume-Sound action now scale p legal h
apply-Sound (reads now) p legal h = evict_all-Sound now p.buckets h

-- Over every sequence of calls whose buckets cannot wrap their counters and whose attempts do not
-- scale a capacity up, the counter of each bucket is the weight of the charges that it keeps and
-- stays within its capacity, if it is so at the start.
pub apply_all-Sound :
    (calls : List Call) (p : RateLimitPolicy)
    → All Legal calls
    → All Sound p.buckets
    → All Sound (apply_all calls p).buckets
unfolding apply_all
apply_all-Sound [] p legal h = h
apply_all-Sound (c ∷ cs) p legal h =
    apply_all-Sound cs (apply c p) legal.1 (apply-Sound c p legal.0 h)
