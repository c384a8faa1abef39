-- ===== src/Auction/Ends.antt =====
-- That the uncross loop ends, whatever the fill limits and self-trade prevention do:
-- MatchingEngine::runAuction of venue/include/flox-venue/engine/session.inl.
use venue_core.Prelude.{
  ℕ, zero, suc, ◌≤◌, ◌<◌, ◌≡◌, refl, sym, ap, subst, ◌∙◌, ◌==◌, ◌&&◌, ◌||◌, not, Bool, true, false,
  if-split, Option-cases, inl, inr, Option, none, some, List, arith,
}
use venue_core.Prelude.Int.{ℤ}
use venue_core.Types.{Side, buy, sell, opposite, RestingOrder, Event}
use venue_core.Book.Levels.{total_of, qmin, front_order}
use venue_core.Book.Invariant.{tally, WellFormed}
use venue_core.Book.Best.{best-Placed}
use venue_core.Book.{cancel, peek_best}
use venue_core.Matcher.Types.{FillLimit}
use venue_core.Auction.Stp.{AuctionVerdict, auction_verdict, mode_of}
use venue_core.Auction.Uncross.{
  Auctioneer, Rules, cancel_for_stp, decrement_for_stp, cancel_if, prevent, pull_blocked,
  print_pair, limited_pair, pair_turn, self_match, crossing_pair, uncross,
}
use venue_core.Auction.Depth.{eat_best}
use venue_core.Auction.Volume.{print_pair-both}
use venue_core.Auction.Front.{Crossing, crossing_pair-Crossing}
use venue_core.Auction.Shrink.{
  Less, NoMore, same-NoMore, Less-then, best-find, cancel-Less, cancel-NoMore, decrement-Less,
  decrement-NoMore,
}

cancel_for_stp-Less :
    (rules : Rules) (s : Side) (o : RestingOrder) (account : ℕ) (st : Auctioneer)
    → WellFormed st.book
    → peek_best s st.book ≡ some o
    → Less st.book (cancel_for_stp rules o.id account st).book
unfolding cancel_for_stp
cancel_for_stp-Less rules s o account st v e =
    cancel-Less o.id o st.book v (best-find s o st.book v e)

cancel_for_stp-NoMore :
    (rules : Rules) (id account : ℕ) (st : Auctioneer)
    → WellFormed st.book
    → NoMore st.book (cancel_for_stp rules id account st).book
unfolding cancel_for_stp
cancel_for_stp-NoMore rules id account st v = cancel-NoMore id st.book v

cancel_if-NoMore :
    (rules : Rules) (flag : Bool) (o : RestingOrder) (st : Auctioneer)
    → WellFormed st.book
    → NoMore st.book (cancel_if rules flag o st).book
cancel_if-NoMore rules true o st v = cancel_for_stp-NoMore rules o.id o.account_id st v
cancel_if-NoMore rules false o st v = same-NoMore st.book v

-- Every verdict takes something off the best pair, the verdict that names nothing included.
pub prevent-Less :
    (rules : Rules) (verdict : AuctionVerdict) (bid ask : RestingOrder) (by : ℕ) (st : Auctioneer)
    → WellFormed st.book
    → peek_best buy st.book ≡ some bid
    → peek_best sell st.book ≡ some ask
    → 0 < by
    → Less st.book (prevent rules verdict bid ask by st).book
unfolding prevent
prevent-Less rules verdict bid ask by st v eb ea p =
    if-split (λ (s : Auctioneer). Less st.book s.book)
      (not verdict.decrement && not verdict.cancel_bid && not verdict.cancel_ask)
      (λ _.
        let st1 = cancel_for_stp rules bid.id bid.account_id st in
        let first = cancel_for_stp-Less rules buy bid bid.account_id st v eb in
        Less-then st.book st1.book _ first
          (cancel_for_stp-NoMore rules ask.id ask.account_id st1 first.well_formed))
      (λ named.
        if-split (λ (s : Auctioneer). Less st.book s.book) verdict.decrement
          (λ _.
            let st1 = decrement_for_stp rules bid.id by st in
            let first =
              decrement-Less rules bid.id by bid st v (best-find buy bid st.book v eb) p in
            Less-then st.book st1.book _ first
              (decrement-NoMore rules ask.id by st1 first.well_formed p))
          (λ trims. legs verdict.cancel_bid verdict.cancel_ask (ground arith)))
  where
    legs :
        (cb ca : Bool)
        → cb || ca ≡ true
        → Less st.book (cancel_if rules ca ask (cancel_if rules cb bid st)).book
    legs true ca h =
        let first = cancel_for_stp-Less rules buy bid bid.account_id st v eb in
        Less-then st.book (cancel_if rules true bid st).book _ first
          (cancel_if-NoMore rules ca ask (cancel_if rules true bid st) first.well_formed)
    legs false true h = cancel_for_stp-Less rules sell ask ask.account_id st v ea
    legs false false h = absurd (ground arith)

print_pair-Less :
    (rules : Rules) (price : ℤ) (bid ask : RestingOrder) (by : ℕ) (st : Auctioneer)
    → WellFormed st.book
    → peek_best buy st.book ≡ some bid
    → peek_best sell st.book ≡ some ask
    → 0 < by
    → by ≤ bid.leaves
    → by ≤ ask.leaves
    → (st' : Auctioneer) × (print_pair rules price bid ask by st ≡ some st') × Less st.book st'.book
unfolding print_pair opposite peek_best
print_pair-Less rules price bid ask by st v eb ea p lb la =
    let (b1, bought) = eat_best buy bid by st.book v eb lb in
    let (b2, sold) =
      eat_best sell ask by b1 bought.well_formed (ap front_order bought.other_side ∙ ea) la in
    let both = print_pair-both rules price bid ask by st b1 b2 bought.done sold.done in
    (
      both.0,
      both.1,
      record {
        well_formed = subst WellFormed (sym both.2) sold.well_formed;
        less = rw (both.2) (omega (arith, p, bought.whole, sold.whole));
      },
    )

-- The limits never allow more than they are asked for.
unfoldable pub Modest : Option (List Event → RestingOrder → RestingOrder → ℕ → FillLimit) → Type 0
Modest none = Unit
Modest (some limit) =
    (events : List Event) (bid ask : RestingOrder) (n : ℕ) → (limit events bid ask n).qty ≤ n

pull_blocked-Less :
    (rules : Rules) (lim : FillLimit) (bid ask : RestingOrder) (st : Auctioneer)
    → WellFormed st.book
    → peek_best buy st.book ≡ some bid
    → peek_best sell st.book ≡ some ask
    → Less st.book (pull_blocked rules lim bid ask st).book
unfolding pull_blocked
pull_blocked-Less rules lim bid ask st v eb ea =
    if-split (λ (o : RestingOrder). Less st.book (cancel o.id st.book).1) lim.maker_blocked
      (λ _. cancel-Less ask.id ask st.book v (best-find sell ask st.book v ea))
      (λ _. cancel-Less bid.id bid st.book v (best-find buy bid st.book v eb))

-- One turn of the loop.
abbrev Turned : Auctioneer → Option Auctioneer → Type 0
Turned st r = (st' : Auctioneer) × (r ≡ some st') × Less st.book st'.book

limited_pair-Less :
    (rules : Rules) (price : ℤ) (bid ask : RestingOrder) (fill : ℕ) (st : Auctioneer)
    → WellFormed st.book
    → Modest rules.limit
    → peek_best buy st.book ≡ some bid
    → peek_best sell st.book ≡ some ask
    → 0 < fill
    → fill ≤ bid.leaves
    → fill ≤ ask.leaves
    → Turned st (limited_pair rules price bid ask fill st)
unfolding limited_pair Modest
limited_pair-Less rules price bid ask fill st v modest eb ea p lb la =
    elim (Option-cases rules.limit) [
      | inl e ↦ rw (e, limited_pair) (print_pair-Less rules price bid ask fill st v eb ea p lb la)
      | inr (limit, e) ↦
          let lim = limit st.events bid ask fill in
          let small : lim.qty ≤ fill = (subst Modest e modest) st.events bid ask fill in
          rw (e, limited_pair)
            (if-split (Turned st) (lim.qty == 0)
              (λ _. (
                pull_blocked rules lim bid ask st,
                refl,
                pull_blocked-Less rules lim bid ask st v eb ea,
              ))
              (λ some_qty.
                print_pair-Less rules price bid ask lim.qty st v eb ea (ground arith)
                  (omega (arith, small, lb)) (omega (arith, small, la))))
    ]

pair_turn-Less :
    (rules : Rules) (price : ℤ) (bid ask : RestingOrder) (st : Auctioneer)
    → WellFormed st.book
    → Modest rules.limit
    → peek_best buy st.book ≡ some bid
    → peek_best sell st.book ≡ some ask
    → Turned st (pair_turn rules price bid ask st)
unfolding pair_turn
pair_turn-Less rules price bid ask st v modest eb ea =
    let fill : ℕ = qmin bid.leaves ask.leaves in
    let shown_bid : 0 < bid.leaves = best-Placed buy bid st.book v eb in
    let shown_ask : 0 < ask.leaves = best-Placed sell ask st.book v ea in
    let p : 0 < fill = ground arith in
    let verdict = auction_verdict (mode_of bid.id st.modes) (mode_of ask.id st.modes) in
    if-split (Turned st) (self_match rules bid ask st)
      (λ _. (
        prevent rules verdict bid ask fill st,
        refl,
        prevent-Less rules verdict bid ask fill st v eb ea p,
      ))
      (λ _.
        limited_pair-Less rules price bid ask fill st v modest eb ea p (ground arith)
          (ground arith))

-- On a well-formed book, with limits that never allow more than asked and whatever self-trade
-- prevention the orders carry, the loop ends with a well-formed book on which no pair trades at
-- the price, if its fuel exceeds the displayed and hidden quantity of all the orders.
pub uncross-ends :
    (fuel : ℕ) (rules : Rules) (price : ℤ) (st : Auctioneer)
    → WellFormed st.book
    → Modest rules.limit
    → tally total_of st.book < fuel
    → (st' : Auctioneer) × (uncross fuel rules price st ≡ some st')
      × WellFormed st'.book
      × (crossing_pair price st'.book ≡ none)
unfolding uncross
uncross-ends zero rules price st v modest h = absurd (ground arith)
uncross-ends (suc fuel) rules price st v modest h =
    elim (Option-cases (crossing_pair price st.book)) [
      | inl e ↦ (st, rw (e, uncross) refl, v, e)
      | inr ((bid, ask), e) ↦
          let c : Crossing price bid ask st.book = crossing_pair-Crossing price st.book e in
          let (st1, turn, first) =
            pair_turn-Less rules price bid ask st v modest c.bid_best c.ask_best in
          let (st2, rest, ok, over) =
            uncross-ends fuel rules price st1 first.well_formed modest
              (omega (arith, h, first.less)) in
          (st2, rw (e, uncross, turn) rest, ok, over)
    ]
