-- ===== src/Pegs/Align.antt =====
-- The alignment of a peg's target to the tick, venue/include/flox-venue/engine/pegs.h.
use venue_core.Prelude.{
  ℕ, zero, suc, ◌+◌, ◌-◌, ◌*◌, ◌/◌, ◌%◌, ◌≤◌, ◌<◌, ◌≡◌, refl, ap, subst, ◌∙◌, ◌==◌, true, false,
  not, ◌&&◌, leb, Bool-cases, inl, inr, arith,
}
use venue_core.Prelude.Int.{
  ℤ, pos, negsuc, sub_ℕ, ◌+ℤ◌, ◌-ℤ◌, pos_part, neg_part, ltb_ℤ, ◌≤ℤ◌, ◌<ℤ◌, +ℤ_parts, -ℤ_parts,
  pos_parts, eq_of_parts,
}
use native.Mathlib.Nat.{div-add-mod', mod-lt}
use venue_core.Pegs.{quotient, divides, times, levels, align}

sub_ℕ-suc : (k : ℕ) → sub_ℕ 0 (suc k) ≡ negsuc k
sub_ℕ-suc k =
    let below : leb (suc k) 0 ≡ false = ground arith in
    let same : suc k - 0 - 1 ≡ k = omega arith in rw (below, same) refl

negsuc_parts : (n : ℕ) → (pos_part (negsuc n) ≡ 0) × (neg_part (negsuc n) ≡ n + 1)
unfolding pos_part neg_part
negsuc_parts n = (refl, omega arith)

neg_part_pos : (z : ℤ) → pos 0 <ℤ z → neg_part z ≡ 0
unfolding pos_part neg_part
neg_part_pos (pos n) h = refl
neg_part_pos (negsuc n) h = absurd (omega (arith, h))

neg_parts : (k : ℕ) → (pos_part (sub_ℕ 0 k) ≡ 0) × (neg_part (sub_ℕ 0 k) ≡ k)
unfolding pos_part neg_part
neg_parts zero = (refl, refl)
neg_parts (suc k) = rw (sub_ℕ-suc k) (refl, refl)

minus-one : (q : ℕ) → sub_ℕ 0 q -ℤ pos 1 ≡ sub_ℕ 0 (q + 1)
minus-one q =
    eq_of_parts (sub_ℕ 0 q -ℤ pos 1) (sub_ℕ 0 (q + 1))
      (omega (arith, neg_parts q, neg_parts (q + 1), -ℤ_parts (sub_ℕ 0 q) (pos 1), pos_parts 1))

times-neg : (q t : ℕ) → times (sub_ℕ 0 q) t ≡ sub_ℕ 0 (q * t)
unfolding times
times-neg zero t = let none_left : 0 * t ≡ 0 = omega arith in rw none_left refl
times-neg (suc q) t =
    ap (λ z. times z t) (sub_ℕ-suc q)
    ∙ ap (sub_ℕ 0) (let same : (q + 1) * t ≡ suc q * t = omega arith in same)

-- The multiple `k` of the tick is the last one at or below `z`.
abbrev IsFloor : ℕ → ℤ → ℤ → Type 0
IsFloor t z k = (times k t ≤ℤ z) × (z <ℤ times k t +ℤ pos t)

IsFloor-pos : (a t : ℕ) → 0 < t → IsFloor t (pos a) (pos (a / t))
unfolding times
IsFloor-pos a t h =
    let whole : a / t * t + a % t ≡ a = div-add-mod' a t in
    let rest : a % t < t = mod-lt a h in
    let below = pos_parts (a / t * t) in
    let there = pos_parts a in
    let next = +ℤ_parts (pos (a / t * t)) (pos t) in
    let tick = pos_parts t in (omega arith, omega arith)

-- One of the two neighbours of -(m / t), as the division has a rest or not.
IsFloor-neg :
    (m t q : ℕ) (z : ℤ)
    → pos_part z ≡ 0
    → neg_part z ≡ m
    → m ≤ q * t
    → q * t < m + t
    → IsFloor t z (sub_ℕ 0 q)
IsFloor-neg m t q z up down le lt =
    let below = neg_parts (q * t) in
    let next = +ℤ_parts (sub_ℕ 0 (q * t)) (pos t) in
    let tick = pos_parts t in rw (times-neg q t) (omega arith, omega arith)

levels-IsFloor : (t : ℕ) (z : ℤ) → 0 < t → IsFloor t z (levels t z)
unfolding levels quotient divides
levels-IsFloor t (pos a) h =
    let up : ltb_ℤ (pos a) (pos 0) ≡ false = ground (arith, pos_parts a, pos_parts 0) in
    let stays : (not (a % t == 0) && ltb_ℤ (pos a) (pos 0)) ≡ false = ground arith in
    rw stays (IsFloor-pos a t h)
levels-IsFloor t (negsuc n) h =
    let whole : (n + 1) / t * t + (n + 1) % t ≡ n + 1 = div-add-mod' (n + 1) t in
    let rest : (n + 1) % t < t = mod-lt (n + 1) h in
    let down = negsuc_parts n in
    elim (Bool-cases ((n + 1) % t == 0)) [
      | inl e ↦ rw e (
          IsFloor-neg (n + 1) t ((n + 1) / t) (negsuc n) down.0 down.1 (ground arith)
            (ground arith))
      | inr e ↦
          let below : ltb_ℤ (negsuc n) (pos 0) ≡ true = ground (arith, pos_parts 0, down) in
          rw (e, below, minus-one ((n + 1) / t))
            (IsFloor-neg (n + 1) t ((n + 1) / t + 1) (negsuc n) down.0 down.1 (ground arith)
              (ground arith))
    ]

-- With a tick above zero, a price is aligned to the multiple of the tick that is the last one at or
-- below it, on both sides of zero.
pub align-IsFloor :
    (tick z : ℤ)
    → pos 0 <ℤ tick
    → (k : ℤ) × (align tick z ≡ times k (pos_part tick))
      × (align tick z ≤ℤ z)
      × (z <ℤ align tick z +ℤ tick)
unfolding align
align-IsFloor tick z h =
    let used : ltb_ℤ (pos 0) tick ≡ true = ground (arith, h) in
    let whole : pos (pos_part tick) ≡ tick =
      eq_of_parts (pos (pos_part tick)) tick
        (omega (arith, neg_part_pos tick h, pos_parts (pos_part tick))) in
    let (low, high) =
      levels-IsFloor (pos_part tick) z (omega (arith, h, neg_part_pos tick h, pos_parts 0)) in
    rw used (
      levels (pos_part tick) z,
      refl,
      low,
      subst (λ t. z <ℤ times (levels (pos_part tick) z) (pos_part tick) +ℤ t) whole high,
    )
