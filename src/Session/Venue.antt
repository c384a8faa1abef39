-- ===== src/Session/Venue.antt =====
-- How the engine drives the automaton, venue/include/flox-venue/engine/session.inl with the start of
-- submit (engine/dispatch.inl), tripLuldHalt (engine/validate.inl) and the session's part of a
-- checkpoint (engine/checkpoint.inl, engine/checkpoint_restore.inl). What else the engine does is
-- a signal in the order of the calls: a status on the feed, the pull of the book, the uncross.
use venue_core.Prelude.{ℕ, Bool, not, List, [], ◌∷◌, ◌++◌, if◌then◌else◌}
use venue_core.Prelude.Int.{ℤ, pos, ◌+ℤ◌}
use venue_core.Types.{CancelReason, TradingStatus, TradingStatusReason, AdminAction}
use venue_core.Session.{
  SessionEvent, SessionEffect, SessionOutcome, Session, status, pause_elapsed, apply, publishes,
  published_until, memo_restored, snapshot_actions, restore_halt_until,
}

pub record TradingStatusChanged : Type 0 where
  pub symbol : ℕ
  pub status : TradingStatus
  pub reason : TradingStatusReason
  pub until_ns : ℤ

pub data Signal : Type 0 where
  status_changed : TradingStatusChanged → Signal
  pull_book : CancelReason → Signal
  uncross : Signal

-- The fields of the engine that the session's code reads and writes.
pub record Venue : Type 0 where
  pub symbol : ℕ
  pub halted : Bool
  pub luld_halt_ns : ℤ
  pub now : ℤ
  pub session : Session

abbrev pub trading_status : Venue → TradingStatus
trading_status v = status v.halted v.session

-- A status is sent if the session says that it is news.
abbrev pub send : Bool × Session → TradingStatusChanged → Venue → Venue × List Signal
send (news, s) message v =
    if not news
    then (record v { session = s }, [])
    else (record v { session = s }, status_changed message ∷ [])

unfoldable pub emit_status : TradingStatus → TradingStatusReason → ℤ → Venue → Venue × List Signal
unfolding publishes
emit_status st reason until v =
    send (publishes st until v.session)
      (record { symbol = v.symbol; status = st; reason = reason; until_ns = until }) v

unfoldable pub publish_status : TradingStatusReason → Venue → Venue × List Signal
unfolding emit_status published_until status
publish_status reason v =
    emit_status (trading_status v) reason (published_until (trading_status v) v.session) v

abbrev pub pull_book_after : SessionEffect → List Signal
pull_book_after SessionEffect.none = []
pull_book_after SessionEffect.cancel_book_after = pull_book CancelReason.venue_halt ∷ []
pull_book_after SessionEffect.uncross_before = []

-- What follows the automaton's answer.
unfoldable pub carry_out : SessionOutcome × Bool × Session → Venue → Venue × List Signal
unfolding publish_status
carry_out (out, halted, s) v =
    let (v', signals) = publish_status out.reason (record v { halted = halted; session = s }) in
    if not out.fired
    then (record v { halted = halted; session = s }, [])
    else (v', signals ++ pull_book_after out.effect)

unfoldable pub apply_session : SessionEvent → ℤ → Venue → Venue × List Signal
unfolding apply carry_out
apply_session e deadline v = carry_out (apply e v.halted v.now deadline v.session) v

unfoldable pub open_continuous : Venue → Venue × List Signal
unfolding emit_status apply_session
open_continuous v =
    let (v1, before) =
      emit_status TradingStatus.auction_uncross TradingStatusReason.auction (pos 0) v in
    let (v2, after) = apply_session SessionEvent.open_continuous (pos 0) v1 in
    (v2, before ++ uncross ∷ after)

unfoldable pub on_admin : AdminAction → Venue → Venue × List Signal
unfolding apply_session open_continuous
on_admin AdminAction.begin_pre_open v = apply_session SessionEvent.begin_pre_open (pos 0) v
on_admin AdminAction.open_continuous v = open_continuous v
on_admin AdminAction.resume_auction v = apply_session SessionEvent.resume_auction (pos 0) v
on_admin AdminAction.halt_and_cancel_all v =
    apply_session SessionEvent.halt_and_cancel_all (pos 0) v
on_admin AdminAction.halt v = apply_session SessionEvent.halt (pos 0) v
on_admin AdminAction.resume v = apply_session SessionEvent.resume (pos 0) v
on_admin AdminAction.close_session v = apply_session SessionEvent.close_session (pos 0) v
on_admin AdminAction.open_session v = apply_session SessionEvent.open_session (pos 0) v
on_admin AdminAction.delist v = apply_session SessionEvent.delist (pos 0) v
on_admin AdminAction.relist v = apply_session SessionEvent.relist (pos 0) v

unfoldable pub trip_luld_halt : Venue → Venue × List Signal
unfolding apply_session
trip_luld_halt v = apply_session SessionEvent.luld_breach (v.now +ℤ v.luld_halt_ns) v

-- What a command asks of the session: an operator action, a breach of the band by the price of
-- an order, or nothing.
pub data Demand : Type 0 where
  admin : AdminAction → Demand
  breach : Demand
  other : Demand

unfoldable pub meet : Demand → Venue → Venue × List Signal
unfolding on_admin trip_luld_halt
meet (admin a) v = on_admin a v
meet breach v = trip_luld_halt v
meet other v = (v, [])

-- The timed pause ends before a command is looked at.
unfoldable pub end_pause : Venue → Venue × List Signal
unfolding pause_elapsed apply_session
end_pause v =
    if pause_elapsed v.halted v.now v.session
    then apply_session SessionEvent.luld_pause_elapsed (pos 0) v
    else (v, [])

unfoldable pub submit : ℤ × Demand → Venue → Venue × List Signal
unfolding end_pause meet
submit (ts_ns, d) v =
    let (v1, ended) = end_pause (record v { now = ts_ns }) in
    let (v2, signals) = meet d v1 in (v2, ended ++ signals)

unfoldable pub submit_all : List (ℤ × Demand) → Venue → Venue × List Signal
unfolding submit
submit_all [] v = (v, [])
submit_all (c ∷ cs) v =
    let (v1, first) = submit c v in let (v2, rest) = submit_all cs v1 in (v2, first ++ rest)

unfoldable pub replay : List AdminAction → Venue → Venue
unfolding on_admin
replay [] v = v
replay (a ∷ actions) v = replay actions (on_admin a v).0

-- The session's part of a checkpoint: the operator actions and the deadline of SnapshotEnd.
unfoldable pub write_session : Venue → List AdminAction × ℤ
unfolding snapshot_actions
write_session v = (snapshot_actions v.halted v.session, v.session.halt_until)

unfoldable pub restore_end : ℤ → Venue → Venue
unfolding restore_halt_until memo_restored status
restore_end until v =
    let v1 = record v { session = restore_halt_until until v.session } in
    record v1 { session = memo_restored (trading_status v1) v1.session }

unfoldable pub read_session : List AdminAction × ℤ → Venue → Venue
unfolding replay restore_end
read_session (actions, until) v = restore_end until (replay actions v)
