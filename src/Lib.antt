-- ===== src/Lib.antt =====
-- Verification library of venue-core, a deterministic execution venue core.
--
-- What is modelled. A venue symbol has a resting book; an incoming order crosses it in the matcher,
-- which reports every print; conditional orders wait in a stop book until the last price fires
-- them; a session automaton holds the trading status, and an auction uncrosses the book at one
-- price; the engine keeps a dedup window of client order ids, one-cancels-the-other groups, the
-- fill windows of market makers and a ledger of balances; and clients sequence the published market data with a gap detector.
--   Types     enums, orders and events: include/flox/common.h, include/flox/book/resting_order.h,
--             venue/include/flox-venue/messages.h, reject_reason.h
--   Book      MatchingBook: venue/include/flox-venue/matching_book.h. Book/Levels is one side,
--             Book/Invariant the invariant, Book/History the histories of calls.
--   Matcher   Matcher: venue/include/flox-venue/matcher.h. Types (outcome, hooks, state), Plan
--             (planFillOrKill, plannedFillLimit, spendPlan), Stp (applySelfTradePrevention),
--             Sweep (the loop of cross), ProRata (the loop of crossProRata), Cross (both entries
--             and the remainder), Sound (what their prints obey).
--   Session   Session: venue/include/flox-venue/engine/session.h. Session/Venue is the engine around
--             it: engine/session.inl, with its part of a checkpoint.
--   Auction   runAuction of venue/include/flox-venue/engine/session.inl: the clearing price,
--             Auction/Uncross the loop, Auction/Stp StpState of engine/stp.h.
--   Stops     StopBook: venue/include/flox-venue/stop_book.h; Stops/Fire is popTriggered.
--   Feed      GapDetector: venue/include/flox-venue/resend_buffer.h.
--   Ids       ClOrdIdWindow: venue/include/flox-venue/engine/clordid_window.h.
--   Oco       OcoBook: venue/include/flox-venue/engine/oco.h.
--   Mmp       MmpState: venue/include/flox-venue/engine/mmp.h.
--   Pegs      PegBook: venue/include/flox-venue/engine/pegs.h, with pegTargetRaw of
--             engine/expiry_pegs.inl.
--   Rate      RateLimitPolicy: include/flox/execution/rate_limit_policy.h.
--   Decwire   parse and append: include/flox/util/decimal_wire.h.
--   Ledger    Ledger: venue/include/flox-venue/ledger.h.
--   Prelude   shared names, tests on native numbers, lists and signed integers.
--   Tests     runs at concrete inputs.
-- An operation keeps the source's name in snake case. State is passed explicitly: an operation
-- that changes an object returns the object after it, beside its result.
--
-- Conventions and bounds. Ids, accounts and quantities are natural numbers, prices, balances and
-- times are integers, without the ends of int64 and __int128. Where a quantity could go below zero,
-- where an iterator dangles or the front of an empty map is read, the model's operation answers
-- `none`.
-- The seqs of the gap detector and the packed key of the ledger keep their 64 bits, the counters of
-- the rate limiter their 32.
-- A callback of the matcher is a function over a state of the engine's own, or absent. Hash maps
-- are functions of their key; maps and multimaps are lists in their order.
--
-- Fuel. The two loops of the matcher run on fuel and answer `none` without it. A turn of the
-- price-time loop ends it, lowers what the order wants, takes an order off the book or resolves
-- holds. Last look opens a hold only on quantity that it takes, so the order's quantity, the
-- number of resting orders and what the open holds can give back bound the fuel
-- (Matcher/Callbacks, Bites, Total and Returns); for the pro-rata loop what is stated of a
-- crossing is stated of one that returns. The overflow loop of the gap detector has one unit of
-- fuel for each message held, and each turn delivers one. A turn of the uncross takes something
-- off the book, so the quantity on the book bounds its fuel (Auction/Ends).
--
-- Not modelled: order entry and validation, last-look holds, credit, margin and fees, repeg,
-- which composes the target of a peg with the engine, the ladder book, journal and checkpoints,
-- the wire codecs and the gateways; of the files above, the hashes, the snapshot writers of Ids,
-- Auction, Oco and Pegs, StopBook::ids, retryAfterNs, PegBook::sortedIds and the fixed-point
-- arithmetic of ledger.h.
pub mod Prelude
pub mod Types
pub mod Book
pub mod Matcher
pub mod Feed
pub mod Stops
pub mod Ids
pub mod Ledger
pub mod Oco
pub mod Pegs
pub mod Rate
pub mod Mmp
pub mod Decwire
pub mod Session
pub mod Auction
pub mod Tests
