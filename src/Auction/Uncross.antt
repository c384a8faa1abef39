-- ===== src/Auction/Uncross.antt =====
-- The uncross of an auction, MatchingEngine::runAuction of
-- venue/include/flox-venue/engine/session.inl with cancelForStp and decrementForStp of
-- venue/include/flox-venue/engine/publications.inl. The events stand for the callbacks of the
-- engine, so what else the callbacks do, the ledger and the tracking of the orders, is not
-- modelled. The fill limits of the perpetuals are a function of what has been emitted. A fault of
-- the book and a loop that runs out of fuel are `none`.
use venue_core.Prelude.{
  ℕ, zero, suc, ◌+◌, ◌-◌, ◌%◌, ◌==◌, leb, Bool, true, false, not, ◌&&◌, ◌||◌, if◌then◌else◌, Option,
  none, some, List, [], ◌∷◌, ◌++◌,
}
use venue_core.Prelude.Int.{ℤ, ltb_ℤ}
use venue_core.Types.{
  buy, sell, CancelReason, RestingOrder, Trade, Event, traded, executed, canceled,
}
use venue_core.Book.Levels.{qmin, total_of}
use venue_core.Book.{Book, cancel, find, reduce_total, consume_by_id, peek_best, levels}
use venue_core.Matcher.Types.{FillLimit}
use venue_core.Auction.{clearing_price}
use venue_core.Auction.Stp.{Modes, mode_of, forget, scope_of, AuctionVerdict, auction_verdict}

pub record Auctioneer : Type 0 where
  pub book : Book
  pub modes : Modes
  pub trade_seq : ℕ
  pub events : List Event

-- What the loop reads and does not change: the symbol, the firm groups and the limits.
pub record Rules : Type 0 where
  pub symbol : ℕ
  pub groups : List (ℕ × ℕ)
  pub limit : Option (List Event → RestingOrder → RestingOrder → ℕ → FillLimit)

abbrev pub cancel_report : ℕ → ℕ → CancelReason → ℕ → Option RestingOrder → Event
cancel_report symbol id reason account none = canceled (record {
  id = id;
  symbol = symbol;
  reason = reason;
  account = account;
  client_order_id = 0;
  leaves_qty = 0;
  cum_qty = 0;
})
cancel_report symbol id reason account (some o) = canceled (record {
  id = id;
  symbol = symbol;
  reason = reason;
  account = account;
  client_order_id = o.client_order_id;
  leaves_qty = total_of o;
  cum_qty = o.cum_qty;
})

unfoldable pub cancel_for_stp : Rules → ℕ → ℕ → Auctioneer → Auctioneer
unfolding cancel forget
cancel_for_stp rules id account st =
    let (ro, b) = cancel id st.book in
    record st {
      book = b;
      modes = forget id st.modes;
      events =
          st.events
          ++ (cancel_report rules.symbol id CancelReason.self_trade_prevention account ro ∷ []);
    }

unfoldable pub decrement_for_stp : Rules → ℕ → ℕ → Auctioneer → Auctioneer
unfolding find cancel_for_stp reduce_total
decrement_for_stp rules id by st = elim (find id st.book) [
  | none ↦ st
  | some r ↦
      if leb (total_of r) by
      then cancel_for_stp rules id r.account_id st
      else record st { book = (reduce_total id (total_of r - by) st.book).1 }
]

abbrev pub cancel_if : Rules → Bool → RestingOrder → Auctioneer → Auctioneer
cancel_if rules flag o st = if flag then cancel_for_stp rules o.id o.account_id st else st

-- What an engaged verdict does about a pair.
unfoldable pub prevent :
    Rules → AuctionVerdict → RestingOrder → RestingOrder → ℕ → Auctioneer → Auctioneer
unfolding cancel_for_stp decrement_for_stp
prevent rules v bid ask fill st =
    if not v.decrement && not v.cancel_bid && not v.cancel_ask
    then cancel_for_stp rules ask.id ask.account_id (cancel_for_stp rules bid.id bid.account_id st)
    else if v.decrement
    then decrement_for_stp rules ask.id fill (decrement_for_stp rules bid.id fill st)
    else cancel_if rules v.cancel_ask ask (cancel_if rules v.cancel_bid bid st)

-- The leg that the limits block is pulled.
unfoldable pub pull_blocked :
    Rules → FillLimit → RestingOrder → RestingOrder → Auctioneer → Auctioneer
unfolding cancel forget
pull_blocked rules lim bid ask st =
    let o = if lim.maker_blocked then ask else bid in
    record st {
      book = (cancel o.id st.book).1;
      modes = forget o.id st.modes;
      events = st.events ++ (cancel_report rules.symbol o.id lim.reason o.account_id (some o) ∷ []);
    }

-- The report of one leg, from the order after the fill or, if it left the book, before it.
abbrev pub leg_report : Rules → ℤ → ℕ → RestingOrder → Option RestingOrder → Event
leg_report rules price fill o none = executed (record {
  id = o.id;
  symbol = rules.symbol;
  last_qty = fill;
  leaves_qty = 0;
  aggressor = false;
  complete = true;
  last_px = price;
  display_leaves = 0;
  account = o.account_id;
  client_order_id = o.client_order_id;
  cum_qty = o.cum_qty + fill;
})
leg_report rules price fill o (some after) = executed (record {
  id = o.id;
  symbol = rules.symbol;
  last_qty = fill;
  leaves_qty = total_of after;
  aggressor = false;
  complete = (total_of after == 0);
  last_px = price;
  display_leaves = after.leaves;
  account = o.account_id;
  client_order_id = o.client_order_id;
  cum_qty = after.cum_qty;
})

abbrev pub next_seq : ℕ → ℕ
next_seq n = (n + 1) % 18446744073709551616

abbrev pub print : Rules → ℤ → RestingOrder → RestingOrder → ℕ → Auctioneer → Trade
print rules price bid ask fill st = record {
  trade_id = next_seq st.trade_seq;
  symbol = rules.symbol;
  price = price;
  quantity = fill;
  maker_id = ask.id;
  taker_id = bid.id;
  taker_side = buy;
  maker_account = ask.account_id;
  taker_account = bid.account_id;
}

unfoldable pub print_pair :
    Rules → ℤ → RestingOrder → RestingOrder → ℕ → Auctioneer → Option Auctioneer
unfolding consume_by_id find
print_pair rules price bid ask fill st = elim (consume_by_id bid.id fill st.book) [
  | none ↦ none
  | some b1 ↦ elim (consume_by_id ask.id fill b1) [
    | none ↦ none
    | some b2 ↦ some (record st {
      book = b2;
      trade_seq = next_seq st.trade_seq;
      events =
          st.events
          ++ (traded (print rules price bid ask fill st)
              ∷ leg_report rules price fill bid (find bid.id b2)
              ∷ leg_report rules price fill ask (find ask.id b2)
              ∷ []);
    })
  ]
]

unfoldable pub limited_pair :
    Rules → ℤ → RestingOrder → RestingOrder → ℕ → Auctioneer → Option Auctioneer
unfolding print_pair pull_blocked
limited_pair rules price bid ask fill st = elim rules.limit [
  | none ↦ print_pair rules price bid ask fill st
  | some limit ↦
      let lim = limit st.events bid ask fill in
      if lim.qty == 0
      then some (pull_blocked rules lim bid ask st)
      else print_pair rules price bid ask lim.qty st
]

abbrev pub self_match : Rules → RestingOrder → RestingOrder → Auctioneer → Bool
self_match rules bid ask st =
    (scope_of rules.groups bid.account_id == scope_of rules.groups ask.account_id)
    && (auction_verdict (mode_of bid.id st.modes) (mode_of ask.id st.modes)).engaged

unfoldable pub pair_turn : Rules → ℤ → RestingOrder → RestingOrder → Auctioneer → Option Auctioneer
unfolding scope_of auction_verdict mode_of prevent limited_pair
pair_turn rules price bid ask st =
    let fill = qmin bid.leaves ask.leaves in
    if self_match rules bid ask st
    then some (
        prevent rules (auction_verdict (mode_of bid.id st.modes) (mode_of ask.id st.modes)) bid ask
          fill st)
    else limited_pair rules price bid ask fill st

-- The best pair that trades at the price, if there is one.
unfoldable pub crossing_pair : ℤ → Book → Option (RestingOrder × RestingOrder)
unfolding peek_best
crossing_pair price b = elim (peek_best buy b) [
  | none ↦ none
  | some bid ↦ elim (peek_best sell b) [
    | none ↦ none
    | some ask ↦ if ltb_ℤ bid.price price || ltb_ℤ price ask.price then none else some (bid, ask)
  ]
]

unfoldable pub uncross : ℕ → Rules → ℤ → Auctioneer → Option Auctioneer
unfolding crossing_pair pair_turn
uncross zero rules price st = none
uncross (suc fuel) rules price st = elim (crossing_pair price st.book) [
  | none ↦ some st
  | some (bid, ask) ↦ elim (pair_turn rules price bid ask st) [
    | none ↦ none
    | some st' ↦ uncross fuel rules price st'
  ]
]

unfoldable pub run_auction : ℕ → Rules → Auctioneer → Option Auctioneer
unfolding uncross clearing_price levels
run_auction fuel rules st = elim (clearing_price (levels buy st.book) (levels sell st.book)) [
  | none ↦ some st
  | some best ↦ uncross fuel rules best.price st
]
