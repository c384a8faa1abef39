-- ===== src/Session/Restore.antt =====
-- A checkpoint of the trading state and its recovery, snapshotActions, restoreHaltUntil and
-- memoRestored of venue/include/flox-venue/engine/session.h with their callers.
use venue_core.Prelude.{
  All, All-append, ◌≡◌, refl, sym, ap, ◌∙◌, inl, inr, Bool, true, false, not, List, [], ◌∷◌, ◌++◌,
  if◌then◌else◌, if-split, arith,
}
use venue_core.Prelude.Int.{ℤ, pos}
use venue_core.Types.{TradingStatus, TradingStatusReason, AdminAction}
use venue_core.Session.{
  SessionEffect, SessionOutcome, Session, status, snapshot_actions, when, restore_halt_until,
  memo_restored, published_until, apply, allowed, transition_for,
}
use venue_core.Session.Venue.{
  Venue, trading_status, carry_out, apply_session, on_admin, replay, write_session, restore_end,
  read_session,
}
use venue_core.Session.Feed.{noted}
use venue_core.Session.Flags.{Flags, flags, carry_out-flags}
use venue_core.Session.Invariant.{WellFormed, Told}

-- What the actions of a checkpoint do to the flags.
abbrev act : AdminAction → Flags → Flags
act AdminAction.halt f = record f { halted = true }
act AdminAction.resume f = record f { halted = false; deadline = pos 0 }
act AdminAction.begin_pre_open f = record f { auction = true }
act AdminAction.close_session f = record f { closed = true }
act AdminAction.delist f = record f { delisted = true }
act a f = f

abbrev act_all : List AdminAction → Flags → Flags
act_all [] f = f
act_all (a ∷ actions) f = act_all actions (act a f)

-- The actions that a checkpoint writes.
abbrev Written : AdminAction → Type 0
Written AdminAction.halt = Unit
Written AdminAction.resume = Unit
Written AdminAction.begin_pre_open = Unit
Written AdminAction.close_session = Unit
Written AdminAction.delist = Unit
Written a = ⊥

delist-flags :
    (v : Venue) → flags (on_admin AdminAction.delist v).0 ≡ record (flags v) { delisted = true }
unfolding on_admin apply_session apply allowed transition_for carry_out
delist-flags v =
    if-split {A = SessionOutcome × Bool × Session}
      (λ r. flags (carry_out r v).0 ≡ record (flags v) { delisted = true })
      (not (not v.session.delisted))
      (λ e. ap (λ d. record (flags v) { delisted = d }) (twice v.session.delisted e))
      (λ e.
        carry_out-flags TradingStatusReason.administrative SessionEffect.cancel_book_after v.halted
          (record (v.session) { delisted = true }) v)
  where
    twice : (d : Bool) → not (not d) ≡ true → d ≡ true
    twice d e = ground arith

on_admin-flags :
    (a : AdminAction) (v : Venue) → Written a → flags (on_admin a v).0 ≡ act a (flags v)
unfolding on_admin apply_session apply allowed transition_for
on_admin-flags AdminAction.halt v h =
    carry_out-flags TradingStatusReason.administrative SessionEffect.none true v.session v
on_admin-flags AdminAction.resume v h =
    carry_out-flags TradingStatusReason.administrative SessionEffect.none false
      (record (v.session) { halt_until = pos 0 }) v
on_admin-flags AdminAction.begin_pre_open v h =
    carry_out-flags TradingStatusReason.auction SessionEffect.none v.halted
      (record (v.session) { auction = true }) v
on_admin-flags AdminAction.close_session v h =
    carry_out-flags TradingStatusReason.session SessionEffect.none v.halted
      (record (v.session) { closed = true }) v
on_admin-flags AdminAction.delist v h = delist-flags v
on_admin-flags AdminAction.open_continuous v h = elim h [ ]
on_admin-flags AdminAction.resume_auction v h = elim h [ ]
on_admin-flags AdminAction.halt_and_cancel_all v h = elim h [ ]
on_admin-flags AdminAction.open_session v h = elim h [ ]
on_admin-flags AdminAction.relist v h = elim h [ ]

replay-flags :
    (actions : List AdminAction) (v : Venue)
    → All Written actions
    → flags (replay actions v) ≡ act_all actions (flags v)
unfolding replay
replay-flags [] v h = refl
replay-flags (a ∷ actions) v h =
    replay-flags actions (on_admin a v).0 h.1 ∙ ap (act_all actions) (on_admin-flags a v h.0)

when-Written : (b : Bool) (a : AdminAction) → Written a → All Written (when b a)
when-Written true a h = (h, tt)
when-Written false a h = tt

written : (v : Venue) → All Written (write_session v).0
unfolding write_session snapshot_actions
written v = (
  if-split Written v.halted (λ e. tt) (λ e. tt),
  All-append Written _ (when v.session.delisted AdminAction.delist)
      (All-append Written (when v.session.auction AdminAction.begin_pre_open) _
        (when-Written v.session.auction AdminAction.begin_pre_open tt)
        (when-Written v.session.closed AdminAction.close_session tt))
      (when-Written v.session.delisted AdminAction.delist tt),
)

abbrev with_deadline : ℤ → Flags → Flags
with_deadline until f = record f { deadline = until }

written-flags :
    (h a c d : Bool) (until : ℤ) (f : Flags)
    → f.auction ≡ false
    → f.closed ≡ false
    → f.delisted ≡ false
    → with_deadline until (
        act_all
          ((if h then AdminAction.halt else AdminAction.resume)
            ∷ (when a AdminAction.begin_pre_open
                ++ when c AdminAction.close_session
                ++ when d AdminAction.delist))
          f)
      ≡ record { halted = h; deadline = until; auction = a; closed = c; delisted = d }
written-flags h a c d until f fa fc fd = ground arith

-- A fresh engine that has read the checkpoint of another has its flags.
read-flags :
    (v w : Venue)
    → w.session.auction ≡ false
    → w.session.closed ≡ false
    → w.session.delisted ≡ false
    → flags (read_session (write_session v) w) ≡ flags v
unfolding read_session write_session restore_end restore_halt_until memo_restored snapshot_actions
read-flags v w a c d =
    ap (with_deadline v.session.halt_until) (replay-flags (write_session v).0 w (written v))
    ∙ written-flags v.halted v.session.auction v.session.closed v.session.delisted
        v.session.halt_until (flags w) a c d

-- The session that has these flags, with its state as the last one told.
abbrev told_session : Flags → Session
unfolding status published_until
told_session f =
    let s : Session = record {
      auction = f.auction;
      halt_until = f.deadline;
      closed = f.closed;
      delisted = f.delisted;
      last_status = TradingStatus.trading;
      last_status_until = pos 0;
      published = true;
    } in
    noted (status f.halted s) (published_until (status f.halted s) s) s

noted-same :
    (st : TradingStatus) (until : ℤ) (s : Session)
    → st ≡ s.last_status
    → until ≡ s.last_status_until
    → s.published ≡ true
    → noted st until s ≡ s
noted-same st until s e1 e2 e3 = rw (e1, e2, sym e3) refl

Told-told_session :
    (v : Venue) → Told v → v.session.published ≡ true → told_session (flags v) ≡ v.session
unfolding Told status published_until
Told-told_session v (inl silent) loud = ground arith
Told-told_session v (inr same) loud =
    noted-same (trading_status v) (published_until (trading_status v) v.session) v.session
      (sym same.0) (sym same.1) loud

-- A fresh engine that reads the checkpoint of an engine, of whose states the feed has carried one,
-- has the same trading state, what went out last included.
pub read_session-write_session :
    (v w : Venue)
    → WellFormed v
    → v.session.published ≡ true
    → w.session.auction ≡ false
    → w.session.closed ≡ false
    → w.session.delisted ≡ false
    → ((read_session (write_session v) w).session ≡ v.session)
      × ((read_session (write_session v) w).halted ≡ v.halted)
unfolding read_session restore_end WellFormed memo_restored restore_halt_until
read_session-write_session v w h loud a c d =
    let same = read-flags v w a c d in
    (ap told_session same ∙ Told-told_session v h.1 loud, ap (λ f. f.halted) same)
