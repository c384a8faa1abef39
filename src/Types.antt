-- ===== src/Types.antt =====
-- The vocabulary of include/flox/common.h, include/flox/book/resting_order.h and of
-- venue/include/flox-venue/messages.h and reject_reason.h that the matching core speaks.
-- Ids and accounts are numbers. A price is the signed raw value of its decimal; a quantity is the
-- raw value too, a natural number, and code that could drive one negative faults in the model.
use venue_core.Prelude.{ℕ, ◌≡◌, refl, Bool}
use venue_core.Prelude.Int.{ℤ}

pub data Side : Type 0 where
  buy sell : Side

pub data OrderType : Type 0 where
  limit market stop_market stop_limit take_profit_market take_profit_limit : OrderType
  trailing_stop iceberg : OrderType

pub data TimeInForce : Type 0 where
  gtc ioc fok gtd post_only : TimeInForce

pub data StpMode : Type 0 where
  none cancel_newest cancel_oldest cancel_both decrement : StpMode

pub data PegRef : Type 0 where
  none bid ask mid : PegRef

pub data MatchPolicy : Type 0 where
  price_time_fifo pro_rata : MatchPolicy

pub data RejectReason : Type 0 where
  none unknown_symbol halted invalid_quantity invalid_price tick_size_violation : RejectReason
  lot_size_violation duplicate_order_id unknown_order post_only_would_cross : RejectReason
  fill_or_kill_unfulfillable order_too_large insufficient_funds luld_breach : RejectReason
  position_limit_exceeded too_many_open_orders not_order_owner : RejectReason
  duplicate_client_order_id last_look_unsupported no_ledger_bound rate_limited : RejectReason
  malformed_message unauthenticated session_seq_gap market_closed : RejectReason
  order_type_not_permitted time_in_force_not_permitted resting_not_permitted : RejectReason
  amend_not_permitted cancel_not_permitted quote_not_permitted instrument_delisted : RejectReason
  credit_refused credit_source_unavailable adjustment_empty adjustment_needs_entry : RejectReason
  new_order_not_permitted unknown_order_type book_capacity_exceeded : RejectReason
  peg_requires_tick : RejectReason

pub data CancelReason : Type 0 where
  user_requested immediate_or_cancel_residual market_residual : CancelReason
  self_trade_prevention expired oco_triggered venue_halt liquidation : CancelReason
  fill_or_kill_residual reduce_only_not_reducing position_limit_exceeded : CancelReason
  book_refused : CancelReason

pub data BookAddResult : Type 0 where
  accepted price_out_of_band pool_exhausted : BookAddResult

pub data TradingStatus : Type 0 where
  trading halted luld_pause auction_pre_open auction_uncross closed delisted : TradingStatus

pub data TradingStatusReason : Type 0 where
  none administrative luld_breach luld_pause_elapsed auction session : TradingStatusReason

pub data AdminAction : Type 0 where
  begin_pre_open open_continuous resume_auction halt_and_cancel_all halt resume : AdminAction
  close_session open_session delist relist : AdminAction

pub record RestingOrder : Type 0 where
  pub id : ℕ
  pub account_id : ℕ
  pub price : ℤ
  pub leaves : ℕ
  pub side : Side
  pub hidden : ℕ
  pub peak : ℕ
  pub last_look : Bool
  pub reduce_only : Bool
  pub post_only : Bool
  pub client_order_id : ℕ
  pub cum_qty : ℕ

pub record NewOrder : Type 0 where
  pub id : ℕ
  pub symbol : ℕ
  pub side : Side
  pub order_type : OrderType
  pub price : ℤ
  pub quantity : ℕ
  pub tif : TimeInForce
  pub post_only : Bool
  pub stp : StpMode
  pub account_id : ℕ
  pub client_order_id : ℕ
  pub visible_quantity : ℕ
  pub trigger_price : ℤ
  pub trailing_offset : ℤ
  pub last_look : Bool
  pub reduce_only : Bool
  pub expiry_ns : ℕ
  pub oco_group : ℕ
  pub peg : PegRef
  pub peg_offset_raw : ℤ

pub record Trade : Type 0 where
  pub trade_id : ℕ
  pub symbol : ℕ
  pub price : ℤ
  pub quantity : ℕ
  pub maker_id : ℕ
  pub taker_id : ℕ
  pub taker_side : Side
  pub maker_account : ℕ
  pub taker_account : ℕ

pub record OrderExecuted : Type 0 where
  pub id : ℕ
  pub symbol : ℕ
  pub last_qty : ℕ
  pub leaves_qty : ℕ
  pub aggressor : Bool
  pub complete : Bool
  pub last_px : ℤ
  pub display_leaves : ℕ
  pub account : ℕ
  pub client_order_id : ℕ
  pub cum_qty : ℕ

pub record OrderCanceled : Type 0 where
  pub id : ℕ
  pub symbol : ℕ
  pub reason : CancelReason
  pub account : ℕ
  pub client_order_id : ℕ
  pub leaves_qty : ℕ
  pub cum_qty : ℕ

-- The outbound events that a matcher emits.
pub data Event : Type 0 where
  traded : Trade → Event
  executed : OrderExecuted → Event
  canceled : OrderCanceled → Event

unfoldable pub opposite : Side → Side
opposite buy = sell
opposite sell = buy

pub opposite-opposite : (s : Side) → opposite (opposite s) ≡ s
unfolding opposite
opposite-opposite buy = refl
opposite-opposite sell = refl
