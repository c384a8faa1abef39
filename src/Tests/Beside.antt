-- ===== src/Tests/Beside.antt =====
-- The stop book, the feed, the id window, the groups and the ledger at concrete inputs.
use venue_core.Prelude.{ℕ, ◌≡◌, refl, true, false, List, [], ◌∷◌, ◌++◌, map, not, is_empty, arith}
use venue_core.Prelude.Int.{pos, pos_part, neg_part, ◌+ℤ◌}
use venue_core.Types.{buy, OrderType, TimeInForce, StpMode, PegRef, NewOrder}
use venue_core.Stops.{StopBook, empty_stops, add, update_trailing, emplace as emplace_stop}
use venue_core.Stops.Fire.{choose}
use venue_core.Stops.Rank.{Sorted, SideBeaten}
use venue_core.Stops.Fires.{Fires}
use venue_core.Stops.Choice.{TrailingBeaten, choose-Beaten}
use venue_core.Stops.Trailing.{AllTightened, update_trailing-AllTightened}
use venue_core.Feed.{MdMessage, Config, Stream, fresh_stream, emplace, observe_stream, reset_stream}
use venue_core.Feed.Order.{From, WellFormed, Run, InOrder, deliveries, Current}
use venue_core.Feed.History.{
  observe_all, observe_all-InOrder, observe_stream-Run, held_from, reset_stream-Run,
}
use venue_core.Ids.{fresh_generations, Accounts, duplicate}
use venue_core.Ids.Window.{Within, Submission, submit_all, duplicate_refused}
use venue_core.Oco.{OcoBook, empty_oco, link, note_fill, drain_losers}
use venue_core.Oco.Agree.{Agree, start, next, links, notes, drains, Reach-Agree}
use venue_core.Ledger.{empty_ledger, total}
use venue_core.Ledger.Flow.{Flow, FlowKind, Fits, net_of, apply_all, key_injective, apply_all-total}

abbrev stop_order : ℕ → OrderType → NewOrder
stop_order id kind = record {
  id = id;
  symbol = 1;
  side = buy;
  order_type = kind;
  price = pos 0;
  quantity = 7;
  tif = TimeInForce.gtc;
  post_only = false;
  stp = StpMode.none;
  account_id = 7;
  client_order_id = 0;
  visible_quantity = 0;
  trigger_price = pos 0;
  trailing_offset = pos 3;
  last_look = false;
  reduce_only = false;
  expiry_ns = 0;
  oco_group = 0;
  peg = PegRef.none;
  peg_offset_raw = pos 0;
}

abbrev stops : StopBook
unfolding add
stops =
    add (stop_order 2 OrderType.stop_market) (pos 101) false
      (add (stop_order 1 OrderType.trailing_stop) (pos 104) true empty_stops)

choose-Beaten_example :
    Fires (pos 102) stops (choose (pos 102) stops)
    × SideBeaten true (pos 102) stops.up (choose (pos 102) stops)
    × SideBeaten false (pos 102) stops.down (choose (pos 102) stops)
    × TrailingBeaten (pos 102) stops.trailing (choose (pos 102) stops)
unfolding stops Sorted emplace_stop
choose-Beaten_example = choose-Beaten (pos 102) stops (tt, tt) tt

update_trailing-AllTightened_example :
    AllTightened (pos 100) stops.trailing (update_trailing (pos 100) stops).trailing
    × ((update_trailing (pos 100) stops).up ≡ stops.up)
    × ((update_trailing (pos 100) stops).down ≡ stops.down)
    × ((update_trailing (pos 100) stops).loc ≡ stops.loc)
update_trailing-AllTightened_example = update_trailing-AllTightened (pos 100) stops

abbrev config : Config
config = record { reraise_after = 16; max_held = 4 }

abbrev message : ℕ → MdMessage ℕ
message seq = record { seq = seq; symbol = 1; epoch = 5; payload = seq }

abbrev joined : Stream ℕ
joined = record fresh_stream { epoch = 5; epoch_set = true }

abbrev feed : List (MdMessage ℕ)
feed = message 2 ∷ message 1 ∷ message 1 ∷ message 4 ∷ []

observe_all-InOrder_example : InOrder joined (observe_all config true true feed joined)
unfolding WellFormed Current
observe_all-InOrder_example =
    observe_all-InOrder config true true feed joined (tt, omega arith) refl
      ((refl, omega arith), ((refl, omega arith), ((refl, omega arith), ((refl, omega arith), tt))))

observe_stream-Run_example :
    Run 1
      (observe_stream config true true (message 1) joined).0.next
      (deliveries (observe_stream config true true (message 1) joined).1)
unfolding WellFormed Current emplace
observe_stream-Run_example =
    observe_stream-Run config true true (message 1) joined (tt, omega arith) refl
      (refl, omega arith) (omega arith)

-- A stream that waits for its first message and holds two that follow each other and one more.
abbrev waiting : Stream ℕ
waiting = record joined {
  held = (7, message 7) ∷ (8, message 8) ∷ (10, message 10) ∷ [];
  gap_open = true;
}

reset_stream-Run_example :
    WellFormed (reset_stream true 6 7 waiting).0
    × Run 7 (reset_stream true 6 7 waiting).0.next (deliveries (reset_stream true 6 7 waiting).1)
    × (held_from 7 waiting.held
        ≡ deliveries (reset_stream true 6 7 waiting).1
          ++ map (λ e. e.1) (reset_stream true 6 7 waiting).0.held)
    × ((reset_stream true 6 7 waiting).0.epoch ≡ 6)
    × ((reset_stream true 6 7 waiting).0.epoch_set ≡ true)
    × ((reset_stream true 6 7 waiting).0.gap_open
        ≡ not (is_empty (reset_stream true 6 7 waiting).0.held))
unfolding WellFormed From
reset_stream-Run_example =
    reset_stream-Run 6 7 waiting
      (
        (
          omega arith,
          omega arith,
          refl,
          (omega arith, omega arith, refl, (omega arith, omega arith, refl, tt)),
        ),
        omega arith,
      )
      (omega arith)

abbrev no_accounts : Accounts
no_accounts n = fresh_generations

abbrev between : List Submission
between = record { account = 3; id = 8; now_ns = pos 150 } ∷ []

duplicate_refused_example :
    (duplicate 3 7
      (pos 190)
      (pos 100)
      (submit_all (pos 100) between (duplicate 3 7 (pos 100) (pos 100) no_accounts).1)).0
    ≡ true
unfolding pos_part neg_part duplicate Within ◌+ℤ◌
duplicate_refused_example =
    duplicate_refused 3 7 (pos 100) (pos 100) (pos 190) between no_accounts (omega arith)
      (omega arith) refl ((omega arith, omega arith), tt) (omega arith, omega arith)

abbrev flows : List Flow
flows =
    record { kind = FlowKind.deposits; account = 3; asset = 1; raw = pos 50 }
    ∷ record { kind = FlowKind.reserves; account = 3; asset = 1; raw = pos 20 }
    ∷ []

apply_all-total_example :
    total (apply_all flows empty_ledger) 3 1
    ≡ total empty_ledger 3 1 +ℤ net_of 3 1 flows empty_ledger
unfolding Fits
apply_all-total_example =
    apply_all-total flows empty_ledger 3 1 (omega arith, omega arith)
      ((omega arith, omega arith), ((omega arith, omega arith), tt))

key_injective_example : (◌≡◌ {A = ℕ} 3 3) × (◌≡◌ {A = ℕ} 1 1)
unfolding Fits
key_injective_example =
    key_injective 3 1 3 1 (omega arith, omega arith) (omega arith, omega arith) refl

abbrev pair_of_orders : OcoBook
unfolding link
pair_of_orders = link 2 40 (link 1 40 empty_oco)

Reach-Agree_example : Agree (drain_losers (note_fill 1 9 pair_of_orders)).0
unfolding pair_of_orders
Reach-Agree_example =
    Reach-Agree
      (next (next (next (next start (links 1 40 refl)) (links 2 40 refl)) (notes 1 9)) drains)
