-- ===== src/Tests/Matching.antt =====
-- An aggressor of 7 meets two makers of 5, one of them in its own account.
use mathlib.Core.Option.{some-injective}
use venue_core.Book.Fills.{size}
use venue_core.Prelude.{
  Bool, ◌<◌, ◌-◌, ltb, subst, ℕ, ◌+◌, inl, arith, ◌≤◌, ◌≡◌, refl, ◌⊎◌, true, false, Option, none,
  some, [], All, sum_by,
}
use venue_core.Prelude.Int.{ℤ, pos, pos_part, neg_part}
use venue_core.Types.{
  buy, sell, OrderType, TimeInForce, StpMode, PegRef, MatchPolicy, RejectReason, RestingOrder,
  NewOrder, opposite,
}
use venue_core.Book.{Book, empty_book, add_resting, cancel, peek_best, fill_best}
use venue_core.Book.Levels.{push_order, erase_at, erase_id, fill_front, settle}
use venue_core.Matcher.Types.{MatchOutcome, no_outcome, Hooks, Matcher, Run, stp_scope}
use venue_core.Matcher.Sweep.{sweep}
use venue_core.Matcher.Cross.{cross}
use venue_core.Matcher.Callbacks.{Tame}
use venue_core.Matcher.Returns.{cross_returns}
use venue_core.Book.Invariant.{WellFormed}
use venue_core.Book.History.{start, next, adds, Reach-WellFormed}
use venue_core.Matcher.Sound.{FairEvent, traded_qty}
use venue_core.Matcher.Sound.Result.{SameWorld}
use venue_core.Matcher.Sound.Outcome.{
  Remainder, cross-FairEvent, cross-accounts, cross-exact, cross-Remainder,
}

abbrev maker : ℕ → ℕ → ℤ → RestingOrder
maker id account price = record {
  id = id;
  account_id = account;
  price = price;
  leaves = 5;
  side = sell;
  hidden = 0;
  peak = 0;
  last_look = false;
  reduce_only = false;
  post_only = false;
  client_order_id = 0;
  cum_qty = 0;
}

abbrev two_makers : Book
unfolding add_resting
two_makers =
    (add_resting sell (maker 2 8 (pos 101)) (add_resting sell (maker 1 7 (pos 100)) empty_book).1).1

abbrev plain_hooks : Hooks ℕ
plain_hooks = record {
  last_look = none;
  resting_holds = none;
  resting_reduced = none;
  fill_limit = none;
  fill_limit_dry = none;
  next_trade_id = λ e. (e, e + 1);
  sink = λ e ev. e;
}

abbrev matcher : Matcher
matcher = record { policy = MatchPolicy.price_time_fifo; stp_group = [] }

abbrev taker : NewOrder
taker = record {
  id = 9;
  symbol = 1;
  side = buy;
  order_type = OrderType.limit;
  price = pos 101;
  quantity = 7;
  tif = TimeInForce.gtc;
  post_only = false;
  stp = StpMode.cancel_oldest;
  account_id = 7;
  client_order_id = 0;
  visible_quantity = 0;
  trigger_price = pos 0;
  trailing_offset = pos 0;
  last_look = false;
  reduce_only = false;
  expiry_ns = 0;
  oco_group = 0;
  peg = PegRef.none;
  peg_offset_raw = pos 0;
}

abbrev before : Run ℕ
before = record {
  book = two_makers;
  env = 1;
  events = [];
  plan = [];
  plan_cursor = 0;
  plan_active = false;
  skipped_last_look_pro_rata = 0;
  skipped_risk_pro_rata = 0;
  fok_prechecks = 0;
  fok_risk_constrained = 0;
  fok_rejected = 0;
}

abbrev outcome_of : Option (MatchOutcome × Run ℕ) → MatchOutcome × Run ℕ
outcome_of none = (no_outcome, before)
outcome_of (some x) = x

abbrev result : MatchOutcome × Run ℕ
unfolding cross sweep
result = outcome_of (cross plain_hooks matcher taker 0 10 before)

result-some : cross plain_hooks matcher taker 0 10 before ≡ some result
unfolding cross sweep result two_makers peek_best opposite pos_part neg_part stp_scope cancel
    erase_at erase_id fill_best fill_front settle
result-some = refl

-- The aggressor's own maker is pulled, and the other one fills 5 of its 7.
result_filled : (result.0.filled ≡ 5) × (result.0.leaves ≡ 2) × (result.0.residual_rests ≡ true)
unfolding cross sweep result two_makers peek_best opposite pos_part neg_part stp_scope cancel
    erase_at erase_id fill_best fill_front settle
result_filled = (refl, refl, refl)

cross-FairEvent_example : All (FairEvent matcher taker) result.1.events
cross-FairEvent_example = cross-FairEvent plain_hooks matcher taker 0 10 before refl result-some

cross-accounts_example :
    (sum_by traded_qty result.1.events ≡ result.0.filled) × (result.0.filled + result.0.leaves ≤ 7)
cross-accounts_example = cross-accounts plain_hooks matcher taker 0 10 before refl result-some

cross-exact_example : result.0.filled + result.0.leaves ≡ 7
unfolding cross sweep result two_makers peek_best opposite pos_part neg_part stp_scope cancel
    erase_at erase_id fill_best fill_front settle
cross-exact_example =
    cross-exact plain_hooks matcher taker 0 10 before refl result-some refl refl refl

cross-Remainder_example :
    (SameWorld plain_hooks matcher taker 0 before result.1
      × (result.0.filled ≡ 0)
      × ((result.0.reject ≡ RejectReason.post_only_would_cross)
          ⊎ (result.0.reject ≡ RejectReason.fill_or_kill_unfulfillable)))
    ⊎ ((result.0.reject ≡ RejectReason.none) × Remainder taker result.0)
cross-Remainder_example = cross-Remainder plain_hooks matcher taker 0 10 before result-some

-- The next trade id and the number of open holds, which last look opens and the hold callback
-- resolves one at a time.
abbrev open_one : ℕ × ℕ → RestingOrder → ℕ → NewOrder → ℕ → ℕ × ℕ
open_one e m held o cum = (e.0, e.1 + 1)

abbrev resolve_one : ℕ × ℕ → Book → ℕ → Bool × (ℕ × ℕ) × Book
resolve_one e b id = (ltb 0 e.1, (e.0, e.1 - 1), b)

abbrev holding_hooks : Hooks (ℕ × ℕ)
holding_hooks = record {
  last_look = some open_one;
  resting_holds = some resolve_one;
  resting_reduced = none;
  fill_limit = none;
  fill_limit_dry = none;
  next_trade_id = λ e. (e.0, (e.0 + 1, e.1));
  sink = λ e ev. e;
}

abbrev Resolves : ℕ × ℕ → Book → ℕ → (ℕ × ℕ → Book → ℕ → Bool × (ℕ × ℕ) × Book) → Type 0
Resolves e b id f =
    ((f e b id).0 ≡ true
      → WellFormed (f e b id).2 × (size (f e b id).2 + (f e b id).1.1 < size b + e.1))
    × ((f e b id).0 ≡ false → ((f e b id).2 ≡ b) × ((f e b id).1.1 ≤ e.1))

abbrev hold_contract : Tame holding_hooks
hold_contract = record {
  pending = λ e. e.1;
  cost = 1;
  told = λ e x. omega arith;
  numbered = λ e. omega arith;
  opens = λ f set e m held o cum.
      subst
        (λ (g : ℕ × ℕ → RestingOrder → ℕ → NewOrder → ℕ → ℕ × ℕ). (g e m held o cum).1 ≤ e.1 + 1)
        (some-injective open_one f set) (omega arith);
  resolves = λ f set e b id v.
      subst (Resolves e b id) (some-injective resolve_one f set)
        ((λ yes. (v, ground (arith, yes))), (λ no_holds. (refl, omega arith)));
  limited = λ f e. ground arith;
}

abbrev holding : Run (ℕ × ℕ)
holding = record {
  book = two_makers;
  env = (1, 2);
  events = [];
  plan = [];
  plan_cursor = 0;
  plan_active = false;
  skipped_last_look_pro_rata = 0;
  skipped_risk_pro_rata = 0;
  fok_prechecks = 0;
  fok_risk_constrained = 0;
  fok_rejected = 0;
}

two_makers-WellFormed : WellFormed two_makers
unfolding two_makers push_order pos_part neg_part
two_makers-WellFormed = Reach-WellFormed (
    next
      (next start (
        adds sell (maker 1 7 (pos 100))
          (record { fresh = refl; shows = omega arith; refills = inl refl })))
      (adds sell (maker 2 8 (pos 101))
        (record { fresh = refl; shows = omega arith; refills = inl refl })))

-- Two holds on the aggressor's own maker are resolved before it is pulled.
cross_returns_example :
    (x : MatchOutcome × Run (ℕ × ℕ)) × (cross holding_hooks matcher taker 0 20 holding ≡ some x)
unfolding two_makers push_order pos_part neg_part
cross_returns_example =
    cross_returns holding_hooks matcher taker 0 hold_contract 20 holding refl two_makers-WellFormed
      (omega arith)
