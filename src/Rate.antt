-- ===== src/Rate.antt =====
-- The limiter of order actions, include/flox/execution/rate_limit_policy.h. The double that scales
-- the capacity of a bucket for one attempt is a function of the capacity.
pub mod Ban
pub mod Capacity
use venue_core.Prelude.{
  ℕ, suc, ◌+◌, ◌-◌, ◌%◌, ltb, leb, Bool, true, false, ◌&&◌, if◌then◌else◌, List, [], ◌∷◌, ◌++◌,
}
use venue_core.Prelude.Int.{ℤ, pos, ◌+ℤ◌, ◌-ℤ◌, ltb_ℤ, leb_ℤ}

pub data EndpointFamily : Type 0 where
  trading market_data account : EndpointFamily

pub data ActionKind : Type 0 where
  submit cancel replace query_account query_market_data : ActionKind

-- The values of a 32-bit counter.
abbrev pub word : ℕ
word = 4294967296

pub record Bucket : Type 0 where
  pub name : List ℕ
  pub endpoint_family : EndpointFamily
  pub window_ns : ℤ
  pub capacity : ℕ
  pub submit_weight : ℕ
  pub cancel_weight : ℕ
  pub replace_weight : ℕ
  pub query_weight : ℕ
  pub used : ℕ
  pub consumed : List (ℤ × ℕ)

pub record RateLimitPolicy : Type 0 where
  pub buckets : List Bucket
  pub ban_after : ℕ
  pub ban_duration_ns : ℤ
  pub ban_until_ns : ℤ
  pub consecutive_rejects : ℕ

abbrev pub family_of : ActionKind → EndpointFamily
family_of submit = trading
family_of cancel = trading
family_of replace = trading
family_of query_account = account
family_of query_market_data = market_data

abbrev pub same_family : EndpointFamily → EndpointFamily → Bool
same_family trading trading = true
same_family market_data market_data = true
same_family account account = true
same_family f g = false

abbrev pub pick_weight : Bucket → ActionKind → ℕ
pick_weight b submit = b.submit_weight
pick_weight b cancel = b.cancel_weight
pick_weight b replace = b.replace_weight
pick_weight b query_account = b.query_weight
pick_weight b query_market_data = b.query_weight

unfoldable pub add_bucket : Bucket → RateLimitPolicy → RateLimitPolicy
add_bucket b p = record p { buckets = p.buckets ++ (record b { used = 0; consumed = [] } ∷ []) }

unfoldable pub set_ban : ℕ → ℤ → RateLimitPolicy → RateLimitPolicy
set_ban after duration p = record p { ban_after = after; ban_duration_ns = duration }

-- Charges at or before `cutoff` leave, from the oldest on.
unfoldable pub evict : ℤ → List (ℤ × ℕ) → ℕ → List (ℤ × ℕ) × ℕ
evict cutoff [] used = ([], used)
evict cutoff ((t, w) ∷ rest) used =
    let next = evict cutoff rest ((used + word - w) % word) in
    if leb_ℤ t cutoff then next else ((t, w) ∷ rest, used)

unfoldable pub evicted : ℤ → Bucket → Bucket
unfolding evict
evicted now b =
    let r = evict (now -ℤ b.window_ns) b.consumed b.used in record b { consumed = r.0; used = r.1 }

-- The first bucket that overflows ends the walk; the buckets behind it are left as they are.
unfoldable pub check : ActionKind → ℤ → (ℕ → ℕ) → List Bucket → List Bucket × Bool
unfolding evicted
check action now scale [] = ([], true)
check action now scale (b ∷ bs) =
    let rest = check action now scale bs in
    if same_family b.endpoint_family (family_of action)
    then (if ltb (scale b.capacity) (((evicted now b).used + pick_weight b action) % word)
        then (evicted now b ∷ bs, false)
        else (evicted now b ∷ rest.0, rest.1))
    else (b ∷ rest.0, rest.1)

unfoldable pub charge : ActionKind → ℤ → Bucket → Bucket
charge action now b =
    if same_family b.endpoint_family (family_of action)
    then record b {
      consumed = b.consumed ++ ((now, pick_weight b action) ∷ []);
      used = (b.used + pick_weight b action) % word;
    }
    else b

unfoldable pub commit : ActionKind → ℤ → List Bucket → List Bucket
unfolding charge
commit action now [] = []
commit action now (b ∷ bs) = charge action now b ∷ commit action now bs

unfoldable pub maybe_arm_ban : ℤ → RateLimitPolicy → RateLimitPolicy
maybe_arm_ban now p =
    if ltb 0 p.ban_after && leb p.ban_after p.consecutive_rejects && ltb_ℤ (pos 0) p.ban_duration_ns
    then record p { ban_until_ns = now +ℤ p.ban_duration_ns; consecutive_rejects = 0 }
    else p

unfoldable pub rejected : RateLimitPolicy → RateLimitPolicy
rejected p = record p { consecutive_rejects = suc p.consecutive_rejects % word }

unfoldable pub try_consume : ActionKind → ℤ → (ℕ → ℕ) → RateLimitPolicy → RateLimitPolicy × Bool
unfolding check commit maybe_arm_ban rejected
try_consume action now scale p =
    let (bs, fits) = check action now scale p.buckets in
    if ltb_ℤ now p.ban_until_ns
    then (rejected p, false)
    else if fits
    then (record p { buckets = commit action now bs; consecutive_rejects = 0 }, true)
    else (maybe_arm_ban now (rejected (record p { buckets = bs })), false)

unfoldable pub evict_all : ℤ → List Bucket → List Bucket
unfolding evicted
evict_all now [] = []
evict_all now (b ∷ bs) = evicted now b ∷ evict_all now bs

-- The buckets that `bucketStates` reports of are those that it leaves.
unfoldable pub bucket_states : ℤ → RateLimitPolicy → RateLimitPolicy
unfolding evict_all
bucket_states now p = record p { buckets = evict_all now p.buckets }
