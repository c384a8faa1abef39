-- ===== src/Auction/Stp.antt =====
-- Self-trade prevention outside the matcher, venue/include/flox-venue/engine/stp.h. The table of
-- modes is a function, StpMode.none for an id that it does not hold; the hash and the writing of
-- the tables are not modelled.
use venue_core.Prelude.{ℕ, ◌==◌, Bool, true, false, not, ◌||◌, ◌&&◌, if◌then◌else◌, List, [], ◌∷◌}
use venue_core.Types.{StpMode}

abbrev pub Modes : Type 0
Modes = ℕ → StpMode

-- The values of the enum, which `==` compares.
abbrev pub mode_code : StpMode → ℕ
mode_code StpMode.none = 0
mode_code StpMode.cancel_newest = 1
mode_code StpMode.cancel_oldest = 2
mode_code StpMode.cancel_both = 3
mode_code StpMode.decrement = 4

abbrev pub same_mode : StpMode → StpMode → Bool
same_mode a b = mode_code a == mode_code b

unfoldable pub mode_of : ℕ → Modes → StpMode
mode_of id modes = modes id

unfoldable pub track : ℕ → StpMode → Modes → Modes
track id stp modes j = if id == j then stp else modes j

unfoldable pub forget : ℕ → Modes → Modes
forget id modes j = if id == j then StpMode.none else modes j

unfoldable pub restore : ℕ → StpMode → Modes → Modes
restore id mode modes j = if id == j && not (same_mode mode StpMode.none) then mode else modes j

unfoldable pub scope_of : List (ℕ × ℕ) → ℕ → ℕ
scope_of [] account = account
scope_of ((a, g) ∷ groups) account = if a == account then g else scope_of groups account

pub record AuctionVerdict : Type 0 where
  pub engaged : Bool
  pub decrement : Bool
  pub cancel_bid : Bool
  pub cancel_ask : Bool

abbrev pub is_any : StpMode → StpMode → StpMode → Bool
is_any mode a b = same_mode mode a || same_mode mode b

unfoldable pub auction_verdict : StpMode → StpMode → AuctionVerdict
auction_verdict bid_stp ask_stp =
    if same_mode bid_stp StpMode.none && same_mode ask_stp StpMode.none
    then record { engaged = false; decrement = false; cancel_bid = false; cancel_ask = false }
    else if same_mode bid_stp StpMode.decrement || same_mode ask_stp StpMode.decrement
    then record { engaged = true; decrement = true; cancel_bid = false; cancel_ask = false }
    else record {
      engaged = true;
      decrement = false;
      cancel_bid =
          is_any bid_stp StpMode.cancel_newest StpMode.cancel_both
          || is_any ask_stp StpMode.cancel_oldest StpMode.cancel_both;
      cancel_ask =
          is_any bid_stp StpMode.cancel_oldest StpMode.cancel_both
          || is_any ask_stp StpMode.cancel_newest StpMode.cancel_both;
    }
