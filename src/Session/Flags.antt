-- ===== src/Session/Flags.antt =====
-- The flags that a row of the automaton moves, venue/include/flox-venue/engine/session.h.
use venue_core.Prelude.{◌≡◌, ap, Bool, true}
use venue_core.Prelude.Int.{ℤ}
use venue_core.Types.{TradingStatusReason}
use venue_core.Session.{SessionEffect, Session, published_until}
use venue_core.Session.Venue.{Venue, trading_status, publish_status, carry_out}
use venue_core.Session.Feed.{send-Carries}

pub record Flags : Type 0 where
  pub halted : Bool
  pub deadline : ℤ
  pub auction : Bool
  pub closed : Bool
  pub delisted : Bool

abbrev pub flags : Venue → Flags
flags v = record {
  halted = v.halted;
  deadline = v.session.halt_until;
  auction = v.session.auction;
  closed = v.session.closed;
  delisted = v.session.delisted;
}

pub carry_out-flags :
    (reason : TradingStatusReason) (effect : SessionEffect) (halted : Bool) (s : Session)
    (v : Venue)
    → flags (carry_out (record { fired = true; reason = reason; effect = effect }, halted, s) v).0
      ≡ flags (record v { halted = halted; session = s })
unfolding carry_out publish_status
carry_out-flags reason effect halted s v =
    let w : Venue = record v { halted = halted; session = s } in
    ap flags (send-Carries (trading_status w) reason (published_until (trading_status w) s) w).0
