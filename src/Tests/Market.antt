-- ===== src/Tests/Market.antt =====
-- Trading states and auctions at concrete inputs.
use venue_core.Prelude.{
  ℕ, ◌+◌, ◌≤◌, ◌≡◌, refl, inl, inr, true, false, none, some, [], ◌∷◌, All, arith,
}
use venue_core.Prelude.Int.{ℤ, pos, pos_part, neg_part}
use venue_core.Types.{buy, sell, Side, StpMode, AdminAction, TradingStatus, RestingOrder}
use venue_core.Book.{Book, empty_book, add_resting, levels}
use venue_core.Book.Levels.{push_order}
use venue_core.Book.Invariant.{WellFormed}
use venue_core.Book.History.{Reach, start, next, adds, Reach-WellFormed}
use venue_core.Auction.{executable, clearing_price}
use venue_core.Auction.Price.{volume, Beaten, Right}
use venue_core.Auction.Optimum.{clearing_price-optimal}
use venue_core.Auction.Uncross.{Auctioneer, Rules, crossing_pair, uncross, run_auction}
use venue_core.Auction.Volume.{printed}
use venue_core.Auction.Outcome.{NotCrossed, run_auction-NotCrossed}
use venue_core.Auction.Ends.{Modest, uncross-ends}
use venue_core.Session.{fresh_session, status, published_until}
use venue_core.Session.Venue.{Venue, admin, breach, other, submit_all, read_session, write_session}
use venue_core.Session.Invariant.{WellFormed as Consistent, Told, Followed, submit_all-Followed}
use venue_core.Session.Restore.{read_session-write_session}
use venue_core.Session.Pause.{others, all_before, others-resumed, others-paused}

abbrev resting : ℕ → Side → ℤ → RestingOrder
resting id side price = record {
  id = id;
  account_id = id;
  price = price;
  leaves = 5;
  side = side;
  hidden = 2;
  peak = 5;
  last_look = false;
  reduce_only = false;
  post_only = false;
  client_order_id = 0;
  cum_qty = 0;
}

abbrev offered_book : Book
unfolding add_resting
offered_book = (add_resting sell (resting 1 sell (pos 100)) empty_book).1

abbrev crossed_book : Book
unfolding add_resting offered_book
crossed_book = (add_resting buy (resting 2 buy (pos 103)) offered_book).1

crossed_book-Reach : Reach crossed_book
unfolding crossed_book offered_book
crossed_book-Reach =
    next
      (next start (
        adds sell (resting 1 sell (pos 100))
          (record { fresh = refl; shows = omega arith; refills = inr (omega arith) })))
      (adds buy (resting 2 buy (pos 103))
        (record { fresh = refl; shows = omega arith; refills = inr (omega arith) }))

crossed_book-WellFormed : WellFormed crossed_book
crossed_book-WellFormed = Reach-WellFormed crossed_book-Reach

abbrev auctioneer : Auctioneer
auctioneer = record { book = crossed_book; modes = λ _. StpMode.none; trade_seq = 0; events = [] }

abbrev rules : Rules
rules = record { symbol = 1; groups = []; limit = none }

clearing_price-optimal_example :
    Right
      ((pos 103, 7) ∷ [])
      ((pos 100, 7) ∷ [])
      (clearing_price ((pos 103, 7) ∷ []) ((pos 100, 7) ∷ []))
    × (executable ((pos 103, 7) ∷ []) ((pos 100, 7) ∷ []) (pos 102)
        ≤ volume (clearing_price ((pos 103, 7) ∷ []) ((pos 100, 7) ∷ [])))
    × All
        (λ (l : ℤ × ℕ).
          Beaten
            ((pos 103, 7) ∷ [])
            ((pos 100, 7) ∷ [])
            (clearing_price ((pos 103, 7) ∷ []) ((pos 100, 7) ∷ []))
            l.0)
        ((pos 103, 7) ∷ [])
    × All
        (λ (l : ℤ × ℕ).
          Beaten
            ((pos 103, 7) ∷ [])
            ((pos 100, 7) ∷ [])
            (clearing_price ((pos 103, 7) ∷ []) ((pos 100, 7) ∷ []))
            l.0)
        ((pos 100, 7) ∷ [])
clearing_price-optimal_example =
    clearing_price-optimal ((pos 103, 7) ∷ []) ((pos 100, 7) ∷ []) (pos 102)

run_auction-NotCrossed_example :
    (st' : Auctioneer) × (run_auction 8 rules auctioneer ≡ some st')
    × WellFormed st'.book
    × (printed st'.events
        ≡ 0 + volume (clearing_price (levels buy crossed_book) (levels sell crossed_book)))
    × (executable (levels buy crossed_book) (levels sell crossed_book) (pos 101)
        ≤ volume (clearing_price (levels buy crossed_book) (levels sell crossed_book)))
    × NotCrossed (pos 101) st'.book
unfolding crossed_book push_order
run_auction-NotCrossed_example =
    run_auction-NotCrossed 8 rules auctioneer (pos 101) crossed_book-WellFormed
      (record { no_limit = refl; no_modes = λ id. refl }) (omega arith)

uncross-ends_example :
    (st' : Auctioneer) × (uncross 15 rules (pos 101) auctioneer ≡ some st')
    × WellFormed st'.book
    × (crossing_pair (pos 101) st'.book ≡ none)
unfolding Modest crossed_book push_order
uncross-ends_example =
    uncross-ends 15 rules (pos 101) auctioneer crossed_book-WellFormed tt (omega arith)

abbrev venue : Venue
venue = record {
  symbol = 1;
  halted = false;
  luld_halt_ns = pos 50;
  now = pos 0;
  session = fresh_session;
}

abbrev paused_venue : Venue
paused_venue = record venue {
  halted = true;
  session = (record fresh_session { halt_until = pos 60 });
}

venue-Consistent : Consistent venue
unfolding Consistent
venue-Consistent = (inl refl, inl refl)

submit_all-Followed_example : Followed venue (
    submit_all
      ((pos 10, breach) ∷ (pos 20, admin AdminAction.close_session) ∷ (pos 70, other) ∷ [])
      venue)
submit_all-Followed_example =
    submit_all-Followed
      ((pos 10, breach) ∷ (pos 20, admin AdminAction.close_session) ∷ (pos 70, other) ∷ []) venue
      venue-Consistent

abbrev closed_venue : Venue
closed_venue = record paused_venue {
  session = (record (paused_venue.session) {
    closed = true;
    published = true;
    last_status = TradingStatus.closed;
  });
}

closed_venue-Consistent : Consistent closed_venue
unfolding Consistent Told status published_until
closed_venue-Consistent = (inr refl, inr (refl, refl))

read_session-write_session_example :
    ((read_session (write_session closed_venue) venue).session ≡ closed_venue.session)
    × ((read_session (write_session closed_venue) venue).halted ≡ closed_venue.halted)
read_session-write_session_example =
    read_session-write_session closed_venue venue closed_venue-Consistent refl refl refl refl

others-resumed_example :
    ((submit_all (others (pos 59 ∷ pos 60 ∷ [])) paused_venue).0.halted ≡ false)
    × ((submit_all (others (pos 59 ∷ pos 60 ∷ [])) paused_venue).0.session.halt_until ≡ pos 0)
unfolding all_before pos_part neg_part
others-resumed_example = others-resumed (pos 59 ∷ pos 60 ∷ []) paused_venue refl refl refl

others-paused_example :
    ((submit_all (others (pos 58 ∷ pos 59 ∷ [])) paused_venue).0.halted ≡ true)
    × ((submit_all (others (pos 58 ∷ pos 59 ∷ [])) paused_venue).0.session.halt_until ≡ pos 60)
unfolding all_before pos_part neg_part
others-paused_example = others-paused (pos 58 ∷ pos 59 ∷ []) paused_venue refl
