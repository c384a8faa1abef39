-- ===== src/Tests/Pegging.antt =====
-- Peg targets at concrete inputs.
use venue_core.Prelude.{◌≡◌, refl, some, none, not, arith}
use venue_core.Prelude.Int.{ℤ, pos, negsuc, ◌+ℤ◌, ◌≤ℤ◌, ◌<ℤ◌, pos_part, neg_part}
use venue_core.Types
use venue_core.Types.{sell}
use venue_core.Pegs.{Market, market_of, target_raw, align, times, reference, touch}
use venue_core.Pegs.Align.{align-IsFloor}
use venue_core.Pegs.Target.{Within, is_away, is_banded, target_raw-away, target_raw-Within}

-- A bid at the upper end of the band.
abbrev held_market : Market
unfolding market_of
held_market = market_of (some (pos 100)) none (some (pos 90)) (pos 5) (pos 50) (pos 100)

target_raw-away_example :
    is_away sell (pos 100) (target_raw sell Types.PegRef.ask (pos 10) held_market)
    ≡ not (is_banded sell held_market (pos 100))
unfolding held_market reference touch pos_part neg_part market_of
target_raw-away_example =
    target_raw-away sell Types.PegRef.ask (pos 10) held_market (pos 100) (pos 100) refl refl
      (λ low high. omega arith)

target_raw-Within_example :
    Within held_market (target_raw sell Types.PegRef.ask (pos 10) held_market)
unfolding held_market reference touch pos_part neg_part market_of
target_raw-Within_example =
    target_raw-Within sell Types.PegRef.ask (pos 10) held_market (pos 100) refl
      (λ low high. omega arith)

align-IsFloor_example :
    (k : ℤ) × (align (pos 5) (negsuc 12) ≡ times k (pos_part (pos 5)))
    × (align (pos 5) (negsuc 12) ≤ℤ negsuc 12)
    × (negsuc 12 <ℤ align (pos 5) (negsuc 12) +ℤ pos 5)
unfolding pos_part neg_part
align-IsFloor_example = align-IsFloor (pos 5) (negsuc 12) (omega arith)
