-- ===== src/Tests/Books.antt =====
-- The order book at concrete inputs.
use venue_core.Prelude.{
  ℕ, ◌+◌, ◌≡◌, refl, inl, false, some, [], ◌∷◌, All, sum_by, if◌then◌else◌, arith,
}
use venue_core.Prelude.Int.{ℤ, pos}
use venue_core.Types.{buy, sell, RestingOrder, opposite}
use venue_core.Book.{
  Book, empty_book, levels_of, add_resting, peek_best, fill_best, consume_by_id, cancel, reduce,
  available_within_excl,
}
use venue_core.Book.Levels.{better, orders, push_order, total_of}
use venue_core.Book.Invariant.{tally, WellFormed}
use venue_core.Book.History.{Reach, start, next, adds, reduces, Reach-WellFormed}
use venue_core.Book.Best.{fill_best-eq-consume_by_id, fill_best_total}
use venue_core.Book.Priority.{peek_best-NoBetter, peek_best-add_resting, cancel-add_resting}
use venue_core.Book.Queue.{Call, call, queue_call, queues, queue_of, head}
use venue_core.Book.Refinement.{view, call-view}
use venue_core.Book.Simulation.{run_all, calls_of, no_orders, Reach-refines}
use venue_core.Book.Depth.{offered, available_within_excl-offered}
use venue_core.Matcher.ProRata.{allocate, floor_shares, sum}
use venue_core.Matcher.ProRata.Shares.{Within, allocate_exact}

abbrev offer : ℕ → ℤ → RestingOrder
offer id price = record {
  id = id;
  account_id = 7;
  price = price;
  leaves = 5;
  side = sell;
  hidden = 0;
  peak = 0;
  last_look = false;
  reduce_only = false;
  post_only = false;
  client_order_id = 0;
  cum_qty = 0;
}

abbrev one_offer : Book
unfolding add_resting
one_offer = (add_resting sell (offer 1 (pos 100)) empty_book).1

one_offer-Reach : Reach one_offer
unfolding one_offer
one_offer-Reach = next start (
    adds sell (offer 1 (pos 100))
      (record { fresh = refl; shows = omega arith; refills = inl refl }))

Reach-WellFormed_example : WellFormed one_offer
Reach-WellFormed_example = Reach-WellFormed one_offer-Reach

one_offer-WellFormed : WellFormed one_offer
one_offer-WellFormed = Reach-WellFormed one_offer-Reach

one_offer_best : peek_best sell one_offer ≡ some (offer 1 (pos 100))
unfolding one_offer peek_best push_order
one_offer_best = refl

fill_best-eq-consume_by_id_example : fill_best sell 3 one_offer ≡ consume_by_id 1 3 one_offer
fill_best-eq-consume_by_id_example =
    fill_best-eq-consume_by_id sell 3 one_offer one_offer-WellFormed one_offer_best

fill_best_total_example :
    (b' : Book) × (fill_best sell 3 one_offer ≡ some b')
    × WellFormed b'
    × (tally total_of b' + 3 ≡ tally total_of one_offer)
fill_best_total_example =
    fill_best_total sell 3 one_offer one_offer-WellFormed one_offer_best (omega arith)

peek_best-NoBetter_example :
    All (λ x. better sell x.price (pos 100) ≡ false) (orders (levels_of sell one_offer))
peek_best-NoBetter_example = peek_best-NoBetter sell one_offer one_offer-WellFormed one_offer_best

peek_best-add_resting_example :
    peek_best sell (add_resting sell (offer 2 (pos 99)) one_offer).1
    ≡ some (if better sell (pos 99) (pos 100) then offer 2 (pos 99) else offer 1 (pos 100))
peek_best-add_resting_example =
    peek_best-add_resting sell (offer 2 (pos 99)) one_offer one_offer-WellFormed one_offer_best

cancel-add_resting_example :
    cancel 2 (add_resting sell (offer 2 (pos 99)) one_offer).1
    ≡ (some (offer 2 (pos 99)), one_offer)
unfolding one_offer
cancel-add_resting_example =
    cancel-add_resting sell (offer 2 (pos 99)) one_offer one_offer-WellFormed
      (record { fresh = refl; shows = omega arith; refills = inl refl })

available_within_excl-offered_example :
    (available_within_excl {S = Unit {0}} (λ st o. (false, st)) buy (pos 100) false tt one_offer).0
    ≡ sum_by
        (offered (opposite buy) (pos 100) false (λ o. false))
        (orders (levels_of (opposite buy) one_offer))
available_within_excl-offered_example =
    available_within_excl-offered buy (pos 100) false (λ o. false) one_offer one_offer-WellFormed

allocate_exact_example :
    (sum (allocate 7 (3 ∷ 6 ∷ 2 ∷ [])) ≡ 7)
    × Within (3 ∷ 6 ∷ 2 ∷ []) (allocate 7 (3 ∷ 6 ∷ 2 ∷ []))
    × Within (allocate 7 (3 ∷ 6 ∷ 2 ∷ [])) (floor_shares 7 11 (3 ∷ 6 ∷ 2 ∷ []))
allocate_exact_example = allocate_exact 7 (3 ∷ 6 ∷ 2 ∷ []) (omega arith) (omega arith)

call-view_example :
    view (call (Call.consumes 1 3) one_offer) ≡ queue_call (Call.consumes 1 3) (queues one_offer)
call-view_example = call-view (Call.consumes 1 3) one_offer one_offer-WellFormed

-- Two orders at a price, of which the first shows less later.
busy_history : Reach (reduce 1 2 (add_resting sell (offer 2 (pos 100)) one_offer).1).1
unfolding one_offer
busy_history =
    next
      (next one_offer-Reach (
        adds sell (offer 2 (pos 100))
          (record { fresh = refl; shows = omega arith; refills = inl refl })))
      (reduces 1 2 (omega arith))

abbrev busy_book : Book
busy_book = (reduce 1 2 (add_resting sell (offer 2 (pos 100)) one_offer).1).1

Reach-refines_example :
    (run_all call (calls_of busy_history) empty_book ≡ some busy_book)
    × (run_all queue_call (calls_of busy_history) no_orders ≡ some (queues busy_book))
    × (peek_best sell busy_book ≡ head (queue_of sell (queues busy_book)))
Reach-refines_example = Reach-refines sell busy_history
