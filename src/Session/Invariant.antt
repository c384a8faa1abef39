-- ===== src/Session/Invariant.antt =====
-- The trading state over a history of commands, venue/include/flox-venue/engine/session.inl.
use venue_core.Prelude.{
  ◌≡◌, refl, sym, subst, ◌⊎◌, inl, inr, Bool, true, false, not, List, [], ◌∷◌, ◌++◌, if-split,
}
use venue_core.Prelude.Int.{ℤ, pos, ◌+ℤ◌}
use venue_core.Types.{TradingStatus, TradingStatusReason, AdminAction}
use venue_core.Session.{
  SessionEvent, SessionEffect, SessionOutcome, Session, status, published_until, apply, allowed,
  transition_for, move, move_deadline, pause_elapsed,
}
use venue_core.Session.Venue.{
  Signal, uncross, Venue, trading_status, emit_status, publish_status, carry_out, pull_book_after,
  apply_session, open_continuous, on_admin, trip_luld_halt, Demand, admin, breach, other, meet,
  end_pause, submit, submit_all,
}
use venue_core.Session.Feed.{statuses, memo, Carries, send-Carries, Carries-append, Carries-quiet}

-- A pause deadline is stored only under a halt.
unfoldable pub Paused : Bool → ℤ → Type 0
Paused halted until = (until ≡ pos 0) ⊎ (halted ≡ true)

-- What was published last is the present state.
unfoldable pub Told : Venue → Type 0
unfolding status published_until
Told v =
    (v.session.published ≡ false)
    ⊎ ((v.session.last_status ≡ trading_status v)
        × (v.session.last_status_until ≡ published_until (trading_status v) v.session))

unfoldable pub WellFormed : Venue → Type 0
unfolding Paused Told
WellFormed v = Paused v.halted v.session.halt_until × Told v

-- The engine after a step, with what the step sent.
unfoldable pub Followed : Venue → Venue × List Signal → Type 0
unfolding WellFormed Carries
Followed v (v', signals) = WellFormed v' × Carries (memo v.session) (v'.session, signals)

pull_book_after-quiet : (e : SessionEffect) → statuses (pull_book_after e) ≡ []
unfolding statuses
pull_book_after-quiet SessionEffect.none = refl
pull_book_after-quiet SessionEffect.cancel_book_after = refl
pull_book_after-quiet SessionEffect.uncross_before = refl

carry_out-Followed :
    (reason : TradingStatusReason) (effect : SessionEffect) (halted : Bool) (s : Session)
    (v : Venue)
    → Paused halted s.halt_until
    → memo s ≡ memo v.session
    → Followed v
        (carry_out (record { fired = true; reason = reason; effect = effect }, halted, s) v)
unfolding carry_out publish_status Followed
carry_out-Followed reason effect halted s v paused same =
    let w : Venue = record v { halted = halted; session = s } in
    let sent = send-Carries (trading_status w) reason (published_until (trading_status w) s) w in
    let (v', signals) = publish_status reason w in
    (
      subst WellFormed (sym sent.0) (paused, inr (refl, refl)),
      Carries-quiet (memo v.session) v'.session signals (pull_book_after effect)
          (pull_book_after-quiet effect) (subst (λ m. Carries m (v'.session, signals)) same sent.1),
    )

moved-Paused :
    (e : SessionEvent) (deadline : ℤ) (v : Venue)
    → Paused v.halted v.session.halt_until
    → Paused
        (move (transition_for e).halted v.halted)
        (move_deadline (transition_for e).deadline deadline v.session.halt_until)
unfolding Paused transition_for
moved-Paused SessionEvent.halt deadline v h = inr refl
moved-Paused SessionEvent.resume deadline v h = inl refl
moved-Paused SessionEvent.halt_and_cancel_all deadline v h = inl refl
moved-Paused SessionEvent.begin_pre_open deadline v h = h
moved-Paused SessionEvent.open_continuous deadline v h = h
moved-Paused SessionEvent.resume_auction deadline v h = inl refl
moved-Paused SessionEvent.close_session deadline v h = h
moved-Paused SessionEvent.open_session deadline v h = h
moved-Paused SessionEvent.delist deadline v h = h
moved-Paused SessionEvent.relist deadline v h = h
moved-Paused SessionEvent.luld_breach deadline v h = inr refl
moved-Paused SessionEvent.luld_pause_elapsed deadline v h = inl refl

stays-Followed : (v : Venue) → WellFormed v → Followed v (v, [])
unfolding Followed Carries
stays-Followed v h = (h, (tt, refl))

Followed-append :
    (v v1 v2 : Venue) (xs ys : List Signal)
    → Followed v (v1, xs)
    → Followed v1 (v2, ys)
    → Followed v (v2, xs ++ ys)
unfolding Followed
Followed-append v v1 v2 xs ys hx hy =
    (hy.0, Carries-append (memo v.session) v1.session v2.session xs ys hx.1 hy.1)

apply_session-Followed :
    (e : SessionEvent) (deadline : ℤ) (v : Venue)
    → WellFormed v
    → Followed v (apply_session e deadline v)
unfolding apply_session apply memo carry_out WellFormed
apply_session-Followed e deadline v h =
    if-split {A = SessionOutcome × Bool × Session} (λ r. Followed v (carry_out r v))
      (not (allowed (transition_for e).guard v.halted v.now v.session)) (λ no. stays-Followed v h)
      (λ yes. carry_out-Followed _ _ _ _ v (moved-Paused e deadline v h.0) refl)

-- The uncross itself is told before the flags move.
open_continuous-Followed : (v : Venue) → WellFormed v → Followed v (open_continuous v)
unfolding open_continuous apply_session apply Followed allowed transition_for Carries WellFormed
    memo
open_continuous-Followed v h =
    let sent = send-Carries TradingStatus.auction_uncross TradingStatusReason.auction (pos 0) v in
    let (v1, before) =
      emit_status TradingStatus.auction_uncross TradingStatusReason.auction (pos 0) v in
    let (v2, after) = apply_session SessionEvent.open_continuous (pos 0) v1 in
    let paused : Paused v1.halted v1.session.halt_until =
      subst (λ w. Paused w.halted w.session.halt_until) (sym sent.0) h.0 in
    let last =
      carry_out-Followed TradingStatusReason.auction SessionEffect.uncross_before v1.halted
        (record v1.session { auction = false }) v1 paused refl in
    (
      last.0,
      Carries-append (memo v.session) v1.session v2.session before (uncross ∷ after) sent.1 last.1,
    )

on_admin-Followed : (a : AdminAction) (v : Venue) → WellFormed v → Followed v (on_admin a v)
unfolding on_admin
on_admin-Followed AdminAction.begin_pre_open v h =
    apply_session-Followed SessionEvent.begin_pre_open (pos 0) v h
on_admin-Followed AdminAction.open_continuous v h = open_continuous-Followed v h
on_admin-Followed AdminAction.resume_auction v h =
    apply_session-Followed SessionEvent.resume_auction (pos 0) v h
on_admin-Followed AdminAction.halt_and_cancel_all v h =
    apply_session-Followed SessionEvent.halt_and_cancel_all (pos 0) v h
on_admin-Followed AdminAction.halt v h = apply_session-Followed SessionEvent.halt (pos 0) v h
on_admin-Followed AdminAction.resume v h = apply_session-Followed SessionEvent.resume (pos 0) v h
on_admin-Followed AdminAction.close_session v h =
    apply_session-Followed SessionEvent.close_session (pos 0) v h
on_admin-Followed AdminAction.open_session v h =
    apply_session-Followed SessionEvent.open_session (pos 0) v h
on_admin-Followed AdminAction.delist v h = apply_session-Followed SessionEvent.delist (pos 0) v h
on_admin-Followed AdminAction.relist v h = apply_session-Followed SessionEvent.relist (pos 0) v h

meet-Followed : (d : Demand) (v : Venue) → WellFormed v → Followed v (meet d v)
unfolding meet trip_luld_halt
meet-Followed (admin a) v h = on_admin-Followed a v h
meet-Followed breach v h =
    apply_session-Followed SessionEvent.luld_breach (v.now +ℤ v.luld_halt_ns) v h
meet-Followed other v h = stays-Followed v h

end_pause-Followed : (v : Venue) → WellFormed v → Followed v (end_pause v)
unfolding end_pause
end_pause-Followed v h =
    if-split (Followed v) (pause_elapsed v.halted v.now v.session)
      (λ e. apply_session-Followed SessionEvent.luld_pause_elapsed (pos 0) v h)
      (λ e. stays-Followed v h)

submit-Followed : (c : ℤ × Demand) (v : Venue) → WellFormed v → Followed v (submit c v)
unfolding submit Followed
submit-Followed (ts_ns, d) v h =
    let ended = end_pause-Followed (record v { now = ts_ns }) h in
    let (v1, before) = end_pause (record v { now = ts_ns }) in
    let (v2, after) = meet d v1 in
    Followed-append v v1 v2 before after ended (meet-Followed d v1 ended.0)

-- Whatever commands come, each status that goes out differs from the one before it, the last one
-- that went out is the trading state with its deadline, and a pause deadline is stored only under
-- a halt.
pub submit_all-Followed :
    (cs : List (ℤ × Demand)) (v : Venue) → WellFormed v → Followed v (submit_all cs v)
unfolding submit_all Followed
submit_all-Followed [] v h = stays-Followed v h
submit_all-Followed (c ∷ cs) v h =
    let first = submit-Followed c v h in
    let (v1, before) = submit c v in
    let (v2, after) = submit_all cs v1 in
    Followed-append v v1 v2 before after first (submit_all-Followed cs v1 first.0)
