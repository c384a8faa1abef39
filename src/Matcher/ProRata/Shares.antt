-- ===== src/Matcher/ProRata/Shares.antt =====
-- The split of a level in `crossProRata` of venue/include/flox-venue/matcher.h.
use venue_core.Prelude.{ℕ, ◌+◌, ◌-◌, ◌*◌, ◌/◌, ◌≤◌, ◌<◌, ◌≡◌, List, [], ◌∷◌, arith, min}
use venue_core.Matcher.ProRata.{floor_shares, top_up, sum, allocate}

-- Shares against sizes, participant by participant: as many, and none above its size.
abbrev pub Within : List ℕ → List ℕ → Type 0
Within [] [] = Unit {0}
Within [] (s ∷ ss) = ⊥
Within (a ∷ sizes) [] = ⊥
Within (a ∷ sizes) (s ∷ ss) = (s ≤ a) × Within sizes ss

share_le : (want a tot : ℕ) → want ≤ tot → 0 < tot → want * a / tot ≤ a
share_le want a tot h p = grind arith

share_mul : (x tot : ℕ) → 0 < tot → x / tot * tot ≤ x
share_mul x tot p = grind arith

floor_shares-Within :
    (want tot : ℕ) (sizes : List ℕ)
    → want ≤ tot
    → 0 < tot
    → Within sizes (floor_shares want tot sizes)
unfolding floor_shares
floor_shares-Within want tot [] h p = tt
floor_shares-Within want tot (a ∷ sizes) h p =
    (share_le want a tot h p, floor_shares-Within want tot sizes h p)

floor_shares-mul :
    (want tot : ℕ) (sizes : List ℕ)
    → 0 < tot
    → sum (floor_shares want tot sizes) * tot ≤ want * sum sizes
unfolding floor_shares
floor_shares-mul want tot [] p = omega arith
floor_shares-mul want tot (a ∷ sizes) p =
    omega (arith, share_mul (want * a) tot p, floor_shares-mul want tot sizes p)

cancel : (x y t : ℕ) → 0 < t → x * t ≤ y * t → x ≤ y
cancel x y t p h = grind arith

Within-sum : (sizes shares : List ℕ) → Within sizes shares → sum shares ≤ sum sizes
Within-sum [] [] w = omega arith
Within-sum [] (s ∷ ss) w = absurd w
Within-sum (a ∷ sizes) [] w = absurd w
Within-sum (a ∷ sizes) (s ∷ ss) w = omega (arith, w.0, Within-sum sizes ss w.1)

top_up-sum :
    (leftover : ℕ) (sizes shares : List ℕ)
    → Within sizes shares
    → leftover + sum shares ≤ sum sizes
    → (sum (top_up leftover sizes shares) ≡ sum shares + leftover)
unfolding top_up
top_up-sum l [] [] w h = omega arith
top_up-sum l [] (s ∷ ss) w h = absurd w
top_up-sum l (a ∷ sizes) [] w h = absurd w
top_up-sum l (a ∷ sizes) (s ∷ ss) w h = omega (
  arith,
  w.0,
  Within-sum sizes ss w.1,
  top_up-sum (l - min (a - s) l) sizes ss w.1 (omega (arith, w.0, Within-sum sizes ss w.1)),
)

top_up-Within :
    (leftover : ℕ) (sizes shares : List ℕ)
    → Within sizes shares
    → Within sizes (top_up leftover sizes shares)
unfolding top_up
top_up-Within l [] [] w = tt
top_up-Within l [] (s ∷ ss) w = absurd w
top_up-Within l (a ∷ sizes) [] w = absurd w
top_up-Within l (a ∷ sizes) (s ∷ ss) w =
    (omega (arith, w.0), top_up-Within (l - min (a - s) l) sizes ss w.1)

top_up-over :
    (leftover : ℕ) (sizes shares : List ℕ)
    → Within sizes shares
    → Within (top_up leftover sizes shares) shares
unfolding top_up
top_up-over l [] [] w = tt
top_up-over l [] (s ∷ ss) w = absurd w
top_up-over l (a ∷ sizes) [] w = absurd w
top_up-over l (a ∷ sizes) (s ∷ ss) w = (omega arith, top_up-over (l - min (a - s) l) sizes ss w.1)

-- The split of a wanted quantity over sizes that can supply it hands out exactly that quantity,
-- gives no participant more than its size, and none less than its proportional share rounded down.
pub allocate_exact :
    (want : ℕ) (sizes : List ℕ)
    → 0 < want
    → want ≤ sum sizes
    → (sum (allocate want sizes) ≡ want)
      × Within sizes (allocate want sizes)
      × Within (allocate want sizes) (floor_shares want (sum sizes) sizes)
unfolding allocate
allocate_exact want sizes p h =
    let tot : ℕ = sum sizes in
    let shares : List ℕ = floor_shares want tot sizes in
    let within : Within sizes shares = floor_shares-Within want tot sizes h (omega arith) in
    let handed : sum shares ≤ want =
      cancel (sum shares) want tot (omega arith) (floor_shares-mul want tot sizes (omega arith)) in
    (
      omega (
        arith,
        handed,
        top_up-sum (want - sum shares) sizes shares within (omega (arith, handed)),
      ),
      top_up-Within (want - sum shares) sizes shares within,
      top_up-over (want - sum shares) sizes shares within,
    )
