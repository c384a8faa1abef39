-- ===== src/Decwire.antt =====
-- The decimal text of a fixed-point number, include/flox/util/decimal_wire.h, which the venue's
-- text codecs use. A text is a list of bytes; `std::to_chars` writes the digits of a number without
-- leading zeros.
pub mod Digits
pub mod Text
use venue_core.Prelude.{
  ℕ, zero, suc, ◌+◌, ◌-◌, ◌*◌, ◌/◌, ◌%◌, ◌==◌, ltb, leb, Bool, not, ◌&&◌, if◌then◌else◌, Option,
  none, some, List, [], ◌∷◌, ◌++◌, is_empty,
}
use venue_core.Prelude.Int.{ℤ, pos, negsuc}

abbrev pub k_scale : ℕ
k_scale = 100000000

abbrev pub frac_digits : ℕ
frac_digits = 8

abbrev pub int64_max : ℕ
int64_max = 9223372036854775807

abbrev pub is_digit : ℕ → Bool
is_digit c = leb 48 c && leb c 57

-- The number so far, how many digits it has, and what is left of the text.
abbrev pub Scanned : Type 0
Scanned = ℕ × ℕ × List ℕ

unfoldable pub int_part : ℕ → ℕ → List ℕ → Option Scanned
int_part ip n [] = some (ip, n, [])
int_part ip n (c ∷ t) =
    let next = int_part (ip * 10 + (c - 48)) (suc n) t in
    if is_digit c
    then (if ltb (int64_max / k_scale) (ip * 10 + (c - 48)) then none else next)
    else some (ip, n, c ∷ t)

unfoldable pub frac_part : ℕ → ℕ → List ℕ → Option Scanned
frac_part frac n [] = some (frac, n, [])
frac_part frac n (c ∷ t) =
    let next = frac_part (frac * 10 + (c - 48)) (suc n) t in
    if is_digit c then (if n == frac_digits then none else next) else some (frac, n, c ∷ t)

-- The fraction filled up to the scale.
unfoldable pub pad : ℕ → ℕ → ℕ
pad zero frac = frac
pad (suc k) frac = pad k (frac * 10)

unfoldable pub compose : ℕ → Scanned → Option ℕ
unfolding pad
compose ip (frac, n, rest) =
    if not (is_empty rest)
    then none
    else (let scaled = ip * k_scale in
        let filled = pad (frac_digits - n) frac in
        if ltb (int64_max - filled) scaled then none else some (scaled + filled))

unfoldable pub parse_frac : ℕ → List ℕ → Option ℕ
unfolding frac_part compose
parse_frac ip [] = compose ip (0, 0, [])
parse_frac ip (c ∷ t) =
    if c == 46
    then elim (frac_part 0 0 t) [
      | none ↦ none
      | some (frac, n, rest) ↦ if n == 0 then none else compose ip (frac, n, rest)
    ]
    else compose ip (0, 0, c ∷ t)

unfoldable pub parse : List ℕ → Option ℕ
unfolding int_part parse_frac
parse t = elim (int_part 0 0 t) [
  | none ↦ none
  | some (ip, n, rest) ↦ if n == 0 then none else parse_frac ip rest
]

-- The digits of a number, on fuel for one digit each.
unfoldable pub to_chars : ℕ → ℕ → List ℕ
to_chars zero v = []
to_chars (suc fuel) v =
    let front = to_chars fuel (v / 10) in
    if ltb v 10 then (48 + v) ∷ [] else front ++ ((48 + v % 10) ∷ [])

-- A buffer of 20 bytes holds every 64-bit number.
unfoldable pub append_u64 : List ℕ → ℕ → List ℕ
unfolding to_chars
append_u64 o v = o ++ to_chars 20 v

-- `k` digits, the last one first, in front of those already there.
unfoldable pub put_digits : ℕ → ℕ → List ℕ → List ℕ
put_digits zero frac digits = digits
put_digits (suc k) frac digits = put_digits k (frac / 10) ((48 + frac % 10) ∷ digits)

-- Without the zeros at the end.
unfoldable pub trim : List ℕ → List ℕ
trim [] = []
trim (c ∷ t) = let t' = trim t in if c == 48 && is_empty t' then [] else c ∷ t'

unfoldable pub append_abs : List ℕ → ℕ → List ℕ
unfolding append_u64 put_digits trim
append_abs o u =
    let frac = u % k_scale in
    let whole = append_u64 o (u / k_scale) in
    if frac == 0 then whole else whole ++ (46 ∷ trim (put_digits frac_digits frac []))

unfoldable pub append : List ℕ → ℤ → List ℕ
unfolding append_abs
append o (pos u) = append_abs o u
append o (negsuc n) = append_abs (o ++ (45 ∷ [])) (n + 1)
