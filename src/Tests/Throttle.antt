-- ===== src/Tests/Throttle.antt =====
-- The rate limiter at concrete inputs.
use venue_core.Prelude.{◌≡◌, refl, List, [], ◌∷◌, ◌+◌, ◌<◌, All, arith}
use venue_core.Prelude.Int.{pos, ◌+ℤ◌, pos_part, neg_part}
use venue_core.Rate.{
  ActionKind, Bucket, RateLimitPolicy, submit, cancel, replace, query_account, query_market_data,
  trading, pick_weight, word, try_consume,
}
use venue_core.Rate.Ban.{Attempt, attempt_all, Banned, try_consume-bans}
use venue_core.Rate.Capacity.{Call, adds, bans, consumes, reads, apply_all, Sound, apply_all-Sound}

abbrev orders : Bucket
orders = record {
  name = [];
  endpoint_family = trading;
  window_ns = pos 10;
  capacity = 2;
  submit_weight = 1;
  cancel_weight = 1;
  replace_weight = 3;
  query_weight = 1;
  used = 0;
  consumed = [];
}

abbrev fresh_policy : RateLimitPolicy
fresh_policy = record {
  buckets = [];
  ban_after = 0;
  ban_duration_ns = pos 0;
  ban_until_ns = pos 0;
  consecutive_rejects = 0;
}

abbrev client_calls : List Call
client_calls =
    adds orders
    ∷ bans 1 (pos 100)
    ∷ consumes submit (pos 1) (λ c. c)
    ∷ consumes submit (pos 2) (λ c. c)
    ∷ consumes submit (pos 11) (λ c. c)
    ∷ reads (pos 12)
    ∷ []

orders_fit : (action : ActionKind) → pick_weight orders action + 2 < word
orders_fit submit = omega arith
orders_fit cancel = omega arith
orders_fit replace = omega arith
orders_fit query_account = omega arith
orders_fit query_market_data = omega arith

apply_all-Sound_example : All Sound (apply_all client_calls fresh_policy).buckets
apply_all-Sound_example =
    apply_all-Sound client_calls fresh_policy
      (orders_fit, (tt, ((λ c. omega arith), ((λ c. omega arith), ((λ c. omega arith), (tt, tt))))))
      tt

abbrev strict_policy : RateLimitPolicy
strict_policy = record {
  buckets = orders ∷ [];
  ban_after = 1;
  ban_duration_ns = pos 100;
  ban_until_ns = pos 0;
  consecutive_rejects = 0;
}

abbrev banned_policy : RateLimitPolicy
banned_policy = (try_consume replace (pos 5) (λ c. c) strict_policy).0

abbrev in_ban : List Attempt
in_ban =
    (cancel, pos 6, (λ c. c)) ∷ (submit, pos 99, (λ c. c)) ∷ (query_account, pos 104, (λ c. c)) ∷ []

try_consume-bans_example :
    (banned_policy.ban_until_ns ≡ pos 5 +ℤ pos 100)
    × Banned banned_policy (attempt_all in_ban banned_policy)
unfolding try_consume pos_part neg_part ◌+ℤ◌
try_consume-bans_example =
    try_consume-bans replace (pos 5) (λ c. c) in_ban strict_policy (omega arith) (omega arith)
      (omega arith) (omega arith) (omega arith) refl (omega arith, (omega arith, (omega arith, tt)))
