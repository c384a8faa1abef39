-- ===== src/Auction/Volume.antt =====
-- What the uncross of an auction trades, MatchingEngine::runAuction of
-- venue/include/flox-venue/engine/session.inl, where no fill limit and no self-trade prevention
-- steps in.
use venue_core.Prelude.{
  ℕ, zero, suc, ◌+◌, ◌≤◌, ◌<◌, ◌≡◌, refl, sym, ap, subst, ◌∙◌, ◌⊎◌, ◌==◌, ◌&&◌, Bool, true, false,
  if-split, Bool-cases, Option-cases, inl, inr, Option, none, some, List, [], ◌∷◌, ◌++◌, sum_by,
  sum_by-append, arith,
}
use venue_core.Prelude.Int.{ℤ}
use venue_core.Types.{
  Side, buy, sell, opposite, StpMode, RestingOrder, Event, traded, executed, canceled,
}
use venue_core.Book.Levels.{qmin, front_order, orders}
use venue_core.Book.Invariant.{WellFormed}
use venue_core.Book.Best.{best-Placed}
use venue_core.Book.{Book, levels_of, peek_best, consume_by_id, find}
use venue_core.Auction.Stp.{mode_of, auction_verdict, scope_of}
use venue_core.Auction.Uncross.{
  Auctioneer, Rules, print_pair, limited_pair, pair_turn, crossing_pair, uncross, next_seq, print,
  leg_report, self_match,
}
use venue_core.Auction.Depth.{within, depth, reachable, Eaten, eat_best}
use venue_core.Auction.Front.{depth-best, Crossing, crossing_pair-Crossing, crossing_pair-over}

-- The quantity of a print.
abbrev pub printed_by : Event → ℕ
printed_by (traded t) = t.quantity
printed_by (executed e) = 0
printed_by (canceled c) = 0

abbrev pub printed : List Event → ℕ
printed events = sum_by printed_by events

-- The book from which `n` was traded, best orders first: a price that still reaches a side has
-- lost all of it there.
abbrev pub Spent : ℕ → Side → ℤ → Book → Book → Type 0
Spent n s q b b' = (depth s q b' ≡ 0) ⊎ (depth s q b ≡ depth s q b' + n)

-- The state after prints of `n` in all at a price.
pub record Printed (price : ℤ) (n : ℕ) (st st' : Auctioneer) : Type 0 where
  pub well_formed : WellFormed st'.book
  pub modes : st'.modes ≡ st.modes
  pub volume : printed st'.events ≡ printed st.events + n
  pub bought : depth buy price st.book ≡ depth buy price st'.book + n
  pub sold : depth sell price st.book ≡ depth sell price st'.book + n
  pub spent : (s : Side) (q : ℤ) → Spent n s q st.book st'.book

Eaten-Spent :
    (s : Side) (o : RestingOrder) (by : ℕ) (b b' : Book) (q : ℤ)
    → WellFormed b
    → peek_best s b ≡ some o
    → Eaten s o by b b'
    → Spent by s q b b'
Eaten-Spent s o by b b' q v e h = elim (Bool-cases (within s q o.price)) [
  | inl i ↦ inr (ground (arith, h.less q))
  | inr i ↦ inl (omega (arith, depth-best s q o b v e i, h.less q))
]

both-Spent :
    (n : ℕ) (s : Side) (q : ℤ) (b b1 b2 : Book)
    → b1.asks ≡ b.asks
    → b2.bids ≡ b1.bids
    → Spent n buy q b b1
    → Spent n sell q b1 b2
    → Spent n s q b b2
both-Spent n buy q b b1 b2 asks bids h k =
    subst
      (λ ls.
        (sum_by (reachable buy q) (orders ls) ≡ 0)
        ⊎ (depth buy q b ≡ sum_by (reachable buy q) (orders ls) + n))
      (sym bids) h
both-Spent n sell q b b1 b2 asks bids h k =
    subst
      (λ ls. (depth sell q b2 ≡ 0) ⊎ (sum_by (reachable sell q) (orders ls) ≡ depth sell q b2 + n))
      asks k

leg_report-printed :
    (rules : Rules) (price : ℤ) (by : ℕ) (o : RestingOrder) (after : Option RestingOrder)
    → printed_by (leg_report rules price by o after) ≡ 0
leg_report-printed rules price by o none = refl
leg_report-printed rules price by o (some after) = refl

-- The state of a print.
pub print_pair-both :
    (rules : Rules) (price : ℤ) (bid ask : RestingOrder) (by : ℕ) (st : Auctioneer) (b1 b2 : Book)
    → consume_by_id bid.id by st.book ≡ some b1
    → consume_by_id ask.id by b1 ≡ some b2
    → (st' : Auctioneer) × (print_pair rules price bid ask by st ≡ some st')
      × (st'.book ≡ b2)
      × (st'.modes ≡ st.modes)
      × (printed st'.events ≡ printed st.events + by)
unfolding print_pair
print_pair-both rules price bid ask by st b1 b2 e1 e2 =
    let reports : List Event =
      traded (print rules price bid ask by st)
      ∷ leg_report rules price by bid (find bid.id b2)
      ∷ leg_report rules price by ask (find ask.id b2)
      ∷ [] in
    (
      record st { book = b2; trade_seq = next_seq st.trade_seq; events = st.events ++ reports },
      rw (e1, print_pair, e2) refl,
      refl,
      refl,
      omega (
        arith,
        sum_by-append printed_by st.events reports,
        leg_report-printed rules price by bid (find bid.id b2),
        leg_report-printed rules price by ask (find ask.id b2),
      ),
    )

print_pair-Printed :
    (rules : Rules) (price : ℤ) (bid ask : RestingOrder) (by : ℕ) (st : Auctioneer)
    → WellFormed st.book
    → Crossing price bid ask st.book
    → by ≤ bid.leaves
    → by ≤ ask.leaves
    → (st' : Auctioneer) × (print_pair rules price bid ask by st ≡ some st')
      × Printed price by st st'
unfolding print_pair opposite peek_best
print_pair-Printed rules price bid ask by st v c le_bid le_ask =
    let (b1, bought) = eat_best buy bid by st.book v c.bid_best le_bid in
    let asks_same : levels_of sell b1 ≡ levels_of sell st.book = bought.other_side in
    let ask_best : peek_best sell b1 ≡ some ask = ap front_order asks_same ∙ c.ask_best in
    let (b2, sold) = eat_best sell ask by b1 bought.well_formed ask_best le_ask in
    let bids_same : levels_of buy b2 ≡ levels_of buy b1 = sold.other_side in
    let both = print_pair-both rules price bid ask by st b1 b2 bought.done sold.done in
    (
      both.0,
      both.1,
      record {
        well_formed = subst WellFormed (sym both.2) sold.well_formed;
        modes = both.3;
        volume = both.4;
        bought = rw (both.2) (
            ground (
              arith,
              c.bid_within,
              bought.less price,
              ap (λ ls. sum_by (reachable buy price) (orders ls)) bids_same,
            ));
        sold = rw (both.2) (
            ground (
              arith,
              c.ask_within,
              sold.less price,
              ap (λ ls. sum_by (reachable sell price) (orders ls)) asks_same,
            ));
        spent = λ s q. rw (both.2) (
            both-Spent by s q st.book b1 b2 asks_same bids_same
              (Eaten-Spent buy bid by st.book b1 q v c.bid_best bought)
              (Eaten-Spent sell ask by b1 b2 q bought.well_formed ask_best sold));
      },
    )

spent_twice :
    (a b c n m : ℕ) → (b ≡ 0) ⊎ (a ≡ b + n) → (c ≡ 0) ⊎ (b ≡ c + m) → (c ≡ 0) ⊎ (a ≡ c + (n + m))
spent_twice a b c n m h k = ground arith

-- Several prints in a row.
Printed-trans :
    (price : ℤ) (n m : ℕ) (st st1 st2 : Auctioneer)
    → Printed price n st st1
    → Printed price m st1 st2
    → Printed price (n + m) st st2
Printed-trans price n m st st1 st2 h k = record {
  well_formed = k.well_formed;
  modes = k.modes ∙ h.modes;
  volume = omega (arith, h.volume, k.volume);
  bought = omega (arith, h.bought, k.bought);
  sold = omega (arith, h.sold, k.sold);
  spent = λ s q. spent_twice _ _ _ n m (h.spent s q) (k.spent s q);
}

-- Nothing steps in between a pair: there are no fill limits and no order has a mode.
pub record Plain (rules : Rules) (st : Auctioneer) : Type 0 where
  pub no_limit : rules.limit ≡ none
  pub no_modes : (id : ℕ) → st.modes id ≡ StpMode.none

unengaged :
    (rules : Rules) (bid ask : RestingOrder) (st : Auctioneer)
    → Plain rules st
    → self_match rules bid ask st ≡ false
unfolding mode_of auction_verdict
unengaged rules bid ask st plain =
    rw (plain.no_modes bid.id, plain.no_modes ask.id, auction_verdict)
      (never (scope_of rules.groups bid.account_id == scope_of rules.groups ask.account_id))
  where
    never : (b : Bool) → b && false ≡ false
    never b = ground arith

undisturbed_turn :
    (rules : Rules) (price : ℤ) (bid ask : RestingOrder) (st : Auctioneer)
    → Plain rules st
    → pair_turn rules price bid ask st
      ≡ print_pair rules price bid ask (qmin bid.leaves ask.leaves) st
unfolding pair_turn limited_pair
undisturbed_turn rules price bid ask st plain =
    if-split (λ r. r ≡ print_pair rules price bid ask (qmin bid.leaves ask.leaves) st)
      (self_match rules bid ask st)
      (λ e. absurd (both_ways (self_match rules bid ask st) e (unengaged rules bid ask st plain)))
      (λ e. rw (plain.no_limit, limited_pair) refl)
  where
    both_ways : (b : Bool) → b ≡ true → b ≡ false → ⊥
    both_ways b h k = ground arith

-- The end of an uncross: nothing left to trade at the price on one of the sides.
pub record Uncrossed (price : ℤ) (st st' : Auctioneer) : Type 0 where
  pub traded_in_all : ℕ
  pub all_printed : Printed price traded_in_all st st'
  pub over : (depth buy price st'.book ≡ 0) ⊎ (depth sell price st'.book ≡ 0)

pub uncross-Uncrossed :
    (fuel : ℕ) (rules : Rules) (price : ℤ) (st : Auctioneer)
    → WellFormed st.book
    → Plain rules st
    → depth buy price st.book < fuel
    → (st' : Auctioneer) × (uncross fuel rules price st ≡ some st') × Uncrossed price st st'
unfolding uncross
uncross-Uncrossed zero rules price st v plain h = absurd (ground arith)
uncross-Uncrossed (suc fuel) rules price st v plain h =
    elim (Option-cases (crossing_pair price st.book)) [
      | inl e ↦ (
        st,
        rw (e, uncross) refl,
        record {
          traded_in_all = 0;
          all_printed = record {
            well_formed = v;
            modes = refl;
            volume = omega arith;
            bought = omega arith;
            sold = omega arith;
            spent = λ s q. inr (omega arith);
          };
          over = crossing_pair-over price st.book v e;
        },
      )
      | inr ((bid, ask), e) ↦
          let c : Crossing price bid ask st.book = crossing_pair-Crossing price st.book e in
          let fill : ℕ = qmin bid.leaves ask.leaves in
          let (st1, turn, first) =
            print_pair-Printed rules price bid ask fill st v c (ground arith) (ground arith) in
          let plain1 : Plain rules st1 = record {
            no_limit = plain.no_limit;
            no_modes = λ id. ap (λ m. m id) first.modes ∙ plain.no_modes id;
          } in
          let some_fill : 0 < fill = ground (
            arith,
            best-Placed buy bid st.book v c.bid_best,
            best-Placed sell ask st.book v c.ask_best,
          ) in
          let (st2, rest, done) =
            uncross-Uncrossed fuel rules price st1 first.well_formed plain1
              (omega (arith, h, first.bought, some_fill)) in
          (
            st2,
            rw (e, uncross, undisturbed_turn rules price bid ask st plain ∙ turn) rest,
            record {
              traded_in_all = fill + done.traded_in_all;
              all_printed =
                  Printed-trans price fill done.traded_in_all st st1 st2 first done.all_printed;
              over = done.over;
            },
          )
    ]
