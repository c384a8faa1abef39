-- ===== src/Session.antt =====
-- The trading-state automaton of one instrument, venue/include/flox-venue/engine/session.h. A time is a signed number of nanoseconds
-- and 0 is no deadline. The state hash is not modelled.
use venue_core.Prelude.{
  ℕ, Bool, true, false, not, ◌&&◌, ◌||◌, List, [], ◌∷◌, ◌++◌, ◌==◌, if◌then◌else◌,
}
use venue_core.Prelude.Int.{ℤ, pos, ltb_ℤ, eqb_ℤ}
use venue_core.Types.{TradingStatus, TradingStatusReason, AdminAction}
pub mod Venue
pub mod Feed
pub mod Invariant
pub mod Flags
pub mod Restore
pub mod Pause

pub data SessionEvent : Type 0 where
  halt resume halt_and_cancel_all begin_pre_open open_continuous resume_auction : SessionEvent
  close_session open_session delist relist luld_breach luld_pause_elapsed : SessionEvent

pub data FlagOp : Type 0 where
  leave set clear : FlagOp

pub data SessionGuard : Type 0 where
  always not_already_delisted pause_deadline_passed : SessionGuard

pub data SessionEffect : Type 0 where
  none cancel_book_after uncross_before : SessionEffect

-- The row's event and name are what `transition_for` is asked by.
pub record SessionTransition : Type 0 where
  pub guard : SessionGuard
  pub halted : FlagOp
  pub deadline : FlagOp
  pub auction : FlagOp
  pub closed : FlagOp
  pub delisted : FlagOp
  pub reason : TradingStatusReason
  pub effect : SessionEffect

abbrev row :
    SessionGuard
    → FlagOp
    → FlagOp
    → FlagOp
    → FlagOp
    → FlagOp
    → TradingStatusReason
    → SessionEffect
    → SessionTransition
row guard halted deadline auction closed delisted reason effect = record {
  guard = guard;
  halted = halted;
  deadline = deadline;
  auction = auction;
  closed = closed;
  delisted = delisted;
  reason = reason;
  effect = effect;
}

unfoldable pub transition_for : SessionEvent → SessionTransition
transition_for SessionEvent.halt =
    row SessionGuard.always FlagOp.set FlagOp.leave FlagOp.leave FlagOp.leave FlagOp.leave
      TradingStatusReason.administrative SessionEffect.none
transition_for SessionEvent.resume =
    row SessionGuard.always FlagOp.clear FlagOp.clear FlagOp.leave FlagOp.leave FlagOp.leave
      TradingStatusReason.administrative SessionEffect.none
transition_for SessionEvent.halt_and_cancel_all =
    row SessionGuard.always FlagOp.set FlagOp.clear FlagOp.leave FlagOp.leave FlagOp.leave
      TradingStatusReason.administrative SessionEffect.cancel_book_after
transition_for SessionEvent.begin_pre_open =
    row SessionGuard.always FlagOp.leave FlagOp.leave FlagOp.set FlagOp.leave FlagOp.leave
      TradingStatusReason.auction SessionEffect.none
transition_for SessionEvent.open_continuous =
    row SessionGuard.always FlagOp.leave FlagOp.leave FlagOp.clear FlagOp.leave FlagOp.leave
      TradingStatusReason.auction SessionEffect.uncross_before
transition_for SessionEvent.resume_auction =
    row SessionGuard.always FlagOp.clear FlagOp.clear FlagOp.set FlagOp.leave FlagOp.leave
      TradingStatusReason.auction SessionEffect.none
transition_for SessionEvent.close_session =
    row SessionGuard.always FlagOp.leave FlagOp.leave FlagOp.leave FlagOp.set FlagOp.leave
      TradingStatusReason.session SessionEffect.none
transition_for SessionEvent.open_session =
    row SessionGuard.always FlagOp.leave FlagOp.leave FlagOp.leave FlagOp.clear FlagOp.leave
      TradingStatusReason.session SessionEffect.none
transition_for SessionEvent.delist =
    row SessionGuard.not_already_delisted FlagOp.leave FlagOp.leave FlagOp.leave FlagOp.leave
      FlagOp.set TradingStatusReason.administrative SessionEffect.cancel_book_after
transition_for SessionEvent.relist =
    row SessionGuard.always FlagOp.leave FlagOp.leave FlagOp.leave FlagOp.leave FlagOp.clear
      TradingStatusReason.administrative SessionEffect.none
transition_for SessionEvent.luld_breach =
    row SessionGuard.always FlagOp.set FlagOp.set FlagOp.leave FlagOp.leave FlagOp.leave
      TradingStatusReason.luld_breach SessionEffect.none
transition_for SessionEvent.luld_pause_elapsed =
    row SessionGuard.pause_deadline_passed FlagOp.clear FlagOp.clear FlagOp.leave FlagOp.leave
      FlagOp.leave TradingStatusReason.luld_pause_elapsed SessionEffect.none

pub record Session : Type 0 where
  pub auction : Bool
  pub halt_until : ℤ
  pub closed : Bool
  pub delisted : Bool
  pub last_status : TradingStatus
  pub last_status_until : ℤ
  pub published : Bool

abbrev pub fresh_session : Session
fresh_session = record {
  auction = false;
  halt_until = pos 0;
  closed = false;
  delisted = false;
  last_status = TradingStatus.trading;
  last_status_until = pos 0;
  published = false;
}

pub record SessionOutcome : Type 0 where
  pub fired : Bool
  pub reason : TradingStatusReason
  pub effect : SessionEffect

-- `static_cast<bool>` of a time.
abbrev pub is_set : ℤ → Bool
is_set t = not (eqb_ℤ t (pos 0))

unfoldable pub status : Bool → Session → TradingStatus
status halted s =
    if s.delisted
    then TradingStatus.delisted
    else if s.closed
    then TradingStatus.closed
    else if s.auction
    then TradingStatus.auction_pre_open
    else if halted
    then (if is_set s.halt_until then TradingStatus.luld_pause else TradingStatus.halted)
    else TradingStatus.trading

unfoldable pub pause_elapsed : Bool → ℤ → Session → Bool
pause_elapsed halted now s = halted && is_set s.halt_until && not (ltb_ℤ now s.halt_until)

unfoldable pub allowed : SessionGuard → Bool → ℤ → Session → Bool
unfolding pause_elapsed
allowed SessionGuard.always halted now s = true
allowed SessionGuard.not_already_delisted halted now s = not s.delisted
allowed SessionGuard.pause_deadline_passed halted now s = pause_elapsed halted now s

abbrev pub move : FlagOp → Bool → Bool
move FlagOp.leave flag = flag
move FlagOp.set flag = true
move FlagOp.clear flag = false

abbrev pub move_deadline : FlagOp → ℤ → ℤ → ℤ
move_deadline FlagOp.leave deadline old = old
move_deadline FlagOp.set deadline old = deadline
move_deadline FlagOp.clear deadline old = pos 0

-- The outcome, the halt flag and the session after the event.
unfoldable pub apply : SessionEvent → Bool → ℤ → ℤ → Session → SessionOutcome × Bool × Session
unfolding allowed transition_for
apply e halted now deadline s =
    let t = transition_for e in
    if not (allowed t.guard halted now s)
    then (
      record { fired = false; reason = TradingStatusReason.none; effect = SessionEffect.none },
      halted,
      s,
    )
    else (
      record { fired = true; reason = t.reason; effect = t.effect },
      move t.halted halted,
      record s {
        halt_until = move_deadline t.deadline deadline s.halt_until;
        auction = move t.auction s.auction;
        closed = move t.closed s.closed;
        delisted = move t.delisted s.delisted;
      },
    )

-- The values of the enum, which `==` compares.
abbrev pub status_code : TradingStatus → ℕ
status_code TradingStatus.trading = 0
status_code TradingStatus.halted = 1
status_code TradingStatus.luld_pause = 2
status_code TradingStatus.auction_pre_open = 3
status_code TradingStatus.auction_uncross = 4
status_code TradingStatus.closed = 5
status_code TradingStatus.delisted = 6

abbrev pub same_status : TradingStatus → TradingStatus → Bool
same_status a b = status_code a == status_code b

unfoldable pub publishes : TradingStatus → ℤ → Session → Bool × Session
publishes st until s =
    if s.published && same_status st s.last_status && eqb_ℤ until s.last_status_until
    then (false, s)
    else (true, record s { published = true; last_status = st; last_status_until = until })

unfoldable pub published_until : TradingStatus → Session → ℤ
published_until st s = if same_status st TradingStatus.luld_pause then s.halt_until else pos 0

unfoldable pub memo_restored : TradingStatus → Session → Session
unfolding published_until
memo_restored st s = record s {
  last_status = st;
  last_status_until = published_until st s;
  published = true;
}

abbrev pub when : Bool → AdminAction → List AdminAction
when flag a = if flag then a ∷ [] else []

unfoldable pub snapshot_actions : Bool → Session → List AdminAction
snapshot_actions halted s =
    (if halted then AdminAction.halt else AdminAction.resume)
    ∷ (when s.auction AdminAction.begin_pre_open
        ++ when s.closed AdminAction.close_session
        ++ when s.delisted AdminAction.delist)

unfoldable pub restore_halt_until : ℤ → Session → Session
restore_halt_until until s = record s { halt_until = until }

-- The clone's session, from its own and the one it is cloned from.
unfoldable pub copy_for_snapshot_clone : Session → Session → Session
copy_for_snapshot_clone src s = record s {
  auction = src.auction;
  halt_until = src.halt_until;
  closed = src.closed;
  delisted = src.delisted;
  last_status = src.last_status;
  last_status_until = src.last_status_until;
  published = src.published;
}
