-- ===== src/Pegs.antt =====
-- Pegged orders: PegBook of venue/include/flox-venue/engine/pegs.h and the market it is given by
-- engine/expiry_pegs.inl. Integer division rounds towards zero.
pub mod Align
pub mod Target
use venue_core.Prelude.{
  ℕ, zero, suc, ◌+◌, ◌*◌, ◌/◌, ◌%◌, ◌==◌, Bool, not, ◌&&◌, if◌then◌else◌, Option, none, some,
}
use venue_core.Prelude.Int.{ℤ, pos, negsuc, sub_ℕ, ◌+ℤ◌, ◌-ℤ◌, pos_part, neg_part, ltb_ℤ, leb_ℤ}
use venue_core.Types
use venue_core.Types.{Side, PegRef, buy, sell}

pub record Peg : Type 0 where
  pub side : Side
  pub ref : PegRef
  pub offset : ℤ

-- A side of the book that is empty has no touch.
pub record Market : Type 0 where
  pub bid_raw : Option ℤ
  pub ask_raw : Option ℤ
  pub last_raw : ℤ
  pub tick_raw : ℤ
  pub min_price_raw : ℤ
  pub max_price_raw : ℤ

unfoldable pub quotient : ℤ → ℕ → ℤ
quotient (pos a) t = pos (a / t)
quotient (negsuc n) t = sub_ℕ 0 ((n + 1) / t)

unfoldable pub divides : ℕ → ℤ → Bool
divides t (pos a) = a % t == 0
divides t (negsuc n) = (n + 1) % t == 0

unfoldable pub times : ℤ → ℕ → ℤ
times (pos a) t = pos (a * t)
times (negsuc n) t = sub_ℕ 0 ((n + 1) * t)

unfoldable pub levels : ℕ → ℤ → ℤ
unfolding quotient divides
levels t target =
    if not (divides t target) && ltb_ℤ target (pos 0)
    then quotient target t -ℤ pos 1
    else quotient target t

unfoldable pub align : ℤ → ℤ → ℤ
unfolding levels times
align tick target =
    if ltb_ℤ (pos 0) tick then times (levels (pos_part tick) target) (pos_part tick) else target

unfoldable pub step : Market → ℤ
step m = if ltb_ℤ (pos 0) m.tick_raw then m.tick_raw else pos 1

unfoldable pub touch : Option ℤ → Option ℤ → ℤ → ℤ
touch near far last = elim near [ some p ↦ p | none ↦ elim far [ some p ↦ p | none ↦ last ] ]

unfoldable pub midpoint : Option ℤ → Option ℤ → ℤ → ℤ
unfolding touch quotient
midpoint (some b) (some a) last = quotient (b +ℤ a) 2
midpoint (some b) none last = b
midpoint none (some a) last = a
midpoint none none last = last

unfoldable pub reference : PegRef → Market → Option ℤ
unfolding touch midpoint
reference Types.PegRef.none m = none
reference Types.PegRef.bid m = some (touch m.bid_raw m.ask_raw m.last_raw)
reference Types.PegRef.ask m = some (touch m.ask_raw m.bid_raw m.last_raw)
reference Types.PegRef.mid m = some (midpoint m.bid_raw m.ask_raw m.last_raw)

unfoldable pub never_cross : Side → Market → ℤ → ℤ
unfolding step
never_cross buy m target = elim m.ask_raw [
  | none ↦ target
  | some a ↦ if leb_ℤ a target then a -ℤ step m else target
]
never_cross sell m target = elim m.bid_raw [
  | none ↦ target
  | some b ↦ if leb_ℤ target b then b +ℤ step m else target
]

unfoldable pub clamp_low : Market → ℤ → ℤ
clamp_low m target =
    if ltb_ℤ (pos 0) m.min_price_raw && ltb_ℤ target m.min_price_raw
    then m.min_price_raw
    else target

unfoldable pub clamp_high : Market → ℤ → ℤ
clamp_high m target =
    if ltb_ℤ (pos 0) m.max_price_raw && ltb_ℤ m.max_price_raw target
    then m.max_price_raw
    else target

unfoldable pub target_raw : Side → PegRef → ℤ → Market → ℤ
unfolding reference align never_cross clamp_low clamp_high
target_raw side ref offset m = elim (reference ref m) [
  | none ↦ pos 0
  | some r ↦ clamp_high m (clamp_low m (never_cross side m (align m.tick_raw (r +ℤ offset))))
]

-- The best prices of the book, the last price and the configuration of the instrument.
unfoldable pub market_of : Option ℤ → Option ℤ → Option ℤ → ℤ → ℤ → ℤ → Market
unfolding quotient
market_of bid ask last tick low high = record {
  bid_raw = bid;
  ask_raw = ask;
  last_raw = elim last [ some p ↦ p | none ↦ quotient (low +ℤ high) 2 ];
  tick_raw = tick;
  min_price_raw = low;
  max_price_raw = high;
}

-- The table of the pegged orders.
abbrev pub PegBook : Type 0
PegBook = ℕ → Option Peg

unfoldable pub set : ℕ → Peg → PegBook → PegBook
set id p pegged k = if k == id then some p else pegged k

unfoldable pub erase : ℕ → PegBook → PegBook
erase id pegged k = if k == id then none else pegged k
