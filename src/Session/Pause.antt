-- ===== src/Session/Pause.antt =====
-- The end of a timed pause, pauseElapsed of venue/include/flox-venue/engine/session.h and its caller
-- submit, venue/include/flox-venue/engine/dispatch.inl.
use venue_core.Prelude.{
  if-map, map, ◌&&◌, ◌≡◌, refl, sym, ap, ◌∙◌, Bool, true, false, not, List, [], ◌∷◌, if◌then◌else◌,
  if-split, arith,
}
use venue_core.Prelude.Int.{ℤ, pos, ltb_ℤ}
use venue_core.Types.{TradingStatusReason}
use venue_core.Session.{
  SessionEvent, SessionEffect, SessionOutcome, Session, is_set, apply, allowed, transition_for,
  pause_elapsed,
}
use venue_core.Session.Venue.{
  Signal, Venue, carry_out, apply_session, Demand, other, end_pause, submit, submit_all, meet,
}
use venue_core.Session.Flags.{Flags, flags, carry_out-flags}

abbrev resumed : Flags → Flags
resumed f = record f { halted = false; deadline = pos 0 }

abbrev elapsed : ℤ → Flags → Bool
elapsed now f = f.halted && is_set f.deadline && not (ltb_ℤ now f.deadline)

luld_pause_elapsed-flags :
    (v : Venue)
    → pause_elapsed v.halted v.now v.session ≡ true
    → flags (apply_session SessionEvent.luld_pause_elapsed (pos 0) v).0 ≡ resumed (flags v)
unfolding apply_session apply allowed transition_for
luld_pause_elapsed-flags v over =
    if-split {A = SessionOutcome × Bool × Session}
      (λ r. flags (carry_out r v).0 ≡ resumed (flags v))
      (not (pause_elapsed v.halted v.now v.session))
      (λ e. absurd (contrary (pause_elapsed v.halted v.now v.session) over e))
      (λ e.
        carry_out-flags TradingStatusReason.luld_pause_elapsed SessionEffect.none false
          (record (v.session) { halt_until = pos 0 }) v)
  where
    contrary : (b : Bool) → b ≡ true → not b ≡ true → ⊥
    contrary b h1 h2 = ground arith

submit_other-flags :
    (now : ℤ) (v : Venue)
    → flags (submit (now, other) v).0
      ≡ (if elapsed now (flags v) then resumed (flags v) else flags v)
unfolding submit meet end_pause pause_elapsed
submit_other-flags now v =
    if-map {A = Venue × List Signal} (λ r. flags r.0) (pause_elapsed v.halted now v.session)
      (λ e. luld_pause_elapsed-flags (record v { now = now }) e) (λ e. refl)

-- Whether all the times are before the deadline.
unfoldable pub all_before : ℤ → List ℤ → Bool
all_before deadline [] = true
all_before deadline (t ∷ ts) = ltb_ℤ t deadline && all_before deadline ts

abbrev pub others : List ℤ → List (ℤ × Demand)
others ts = map (λ t. (t, other)) ts

abbrev after : List ℤ → Flags → Flags
after ts f =
    if f.halted && is_set f.deadline && not (all_before f.deadline ts) then resumed f else f

late_or_later :
    {A : Type 0} (halted set early rest : Bool) (x y : A)
    → (if halted && set && not early then x else if halted && set && not rest then x else y)
      ≡ (if halted && set && not (early && rest) then x else y)
late_or_later halted set early rest x y = ground arith

after-cons :
    (t : ℤ) (ts : List ℤ) (f : Flags)
    → after ts (if elapsed t f then resumed f else f) ≡ after (t ∷ ts) f
unfolding all_before
after-cons t ts f =
    if-map (after ts) (elapsed t f) (λ e. refl) (λ e. refl)
    ∙ late_or_later f.halted (is_set f.deadline) (ltb_ℤ t f.deadline) (all_before f.deadline ts)
        (resumed f) f

-- Commands at these times that ask nothing of the session.
others-flags : (ts : List ℤ) (v : Venue) → flags (submit_all (others ts) v).0 ≡ after ts (flags v)
unfolding submit_all all_before
others-flags [] v = sym (none_late v.halted (is_set v.session.halt_until))
  where
    none_late : (a b : Bool) → (if a && b && false then resumed (flags v) else flags v) ≡ flags v
    none_late a b = ground arith
others-flags (t ∷ ts) v =
    others-flags ts (submit (t, other) v).0
    ∙ ap (after ts) (submit_other-flags t v)
    ∙ after-cons t ts (flags v)

-- Whatever commands follow that ask nothing of the session, a timed pause is over, with no
-- deadline left, once one of them is not before the deadline.
pub others-resumed :
    (ts : List ℤ) (v : Venue)
    → v.halted ≡ true
    → is_set v.session.halt_until ≡ true
    → all_before v.session.halt_until ts ≡ false
    → ((submit_all (others ts) v).0.halted ≡ false)
      × ((submit_all (others ts) v).0.session.halt_until ≡ pos 0)
others-resumed ts v h set late =
    let same =
      others-flags ts v
      ∙ over v.halted (is_set v.session.halt_until) (all_before v.session.halt_until ts) h set
          late in
    (ap (λ f. f.halted) same, ap (λ f. f.deadline) same)
  where
    over :
        (a b c : Bool)
        → a ≡ true
        → b ≡ true
        → c ≡ false
        → (if a && b && not c then resumed (flags v) else flags v) ≡ resumed (flags v)
    over a b c ha hb hc = ground arith

-- While all of them are before the deadline, the pause stands.
pub others-paused :
    (ts : List ℤ) (v : Venue)
    → all_before v.session.halt_until ts ≡ true
    → ((submit_all (others ts) v).0.halted ≡ v.halted)
      × ((submit_all (others ts) v).0.session.halt_until ≡ v.session.halt_until)
others-paused ts v early =
    let same =
      others-flags ts v
      ∙ on v.halted (is_set v.session.halt_until) (all_before v.session.halt_until ts) early in
    (ap (λ f. f.halted) same, ap (λ f. f.deadline) same)
  where
    on :
        (a b c : Bool)
        → c ≡ true
        → (if a && b && not c then resumed (flags v) else flags v) ≡ flags v
    on a b c hc = ground arith
