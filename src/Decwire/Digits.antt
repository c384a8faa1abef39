-- ===== src/Decwire/Digits.antt =====
-- The digits of include/flox/util/decimal_wire.h, written and read.
use venue_core.Prelude.{
  ℕ, zero, suc, ◌+◌, ◌-◌, ◌*◌, ◌/◌, ◌%◌, ◌^◌, ◌≤◌, ◌<◌, ◌≡◌, refl, ap, ap₂, ◌∙◌, ◌==◌, ltb, true,
  false, ◌&&◌, if-split, Bool-cases, inl, inr, some, List, [], ◌∷◌, ◌++◌, append_assoc, length,
  is_empty, All, arith,
}
use venue_core.Decwire.{
  k_scale, frac_digits, int64_max, is_digit, int_part, frac_part, pad, to_chars, put_digits, trim,
}

digit_is_digit : (d : ℕ) → d < 10 → is_digit (48 + d) ≡ true
digit_is_digit d h = ground arith

int_part-digit :
    (ip n d : ℕ) (rest : List ℕ)
    → d < 10
    → ip * 10 + d ≤ int64_max / k_scale
    → int_part ip n ((48 + d) ∷ rest) ≡ int_part (ip * 10 + d) (suc n) rest
unfolding int_part
int_part-digit ip n d rest h le =
    let value : ip * 10 + (48 + d - 48) ≡ ip * 10 + d = omega arith in
    let small : ltb (int64_max / k_scale) (ip * 10 + d) ≡ false = ground (arith, le) in
    rw (digit_is_digit d h, value, small) refl

int_part-first :
    (d : ℕ) (rest : List ℕ) → d < 10 → int_part 0 0 ((48 + d) ∷ rest) ≡ int_part d 1 rest
int_part-first d rest h =
    int_part-digit 0 0 d rest h (omega (arith, h))
    ∙ ap (λ ip. int_part ip 1 rest) (let same : 0 * 10 + d ≡ d = omega arith in same)

-- The digits of a whole number are read back, whatever follows them.
pub int_part-to_chars :
    (fuel v : ℕ) (rest : List ℕ)
    → v < 10 ^ suc fuel
    → v ≤ int64_max / k_scale
    → (n : ℕ) × (int_part 0 0 (to_chars (suc fuel) v ++ rest) ≡ int_part v (suc n) rest)
unfolding to_chars
int_part-to_chars zero v rest h le =
    let one : ltb v 10 ≡ true = ground (arith, h) in
    (0, rw one (int_part-first v rest (omega (arith, h))))
int_part-to_chars (suc fuel) v rest h le = elim (Bool-cases (ltb v 10)) [
  | inl e ↦ (0, rw e (int_part-first v rest (ground arith)))
  | inr e ↦
      let (n, front) =
        int_part-to_chars fuel (v / 10) ((48 + v % 10) ∷ rest) (omega (arith, h))
          (omega (arith, le)) in
      (
        suc n,
        rw e (
            ap (int_part 0 0)
              (append_assoc (to_chars (suc fuel) (v / 10)) ((48 + v % 10) ∷ []) rest)
            ∙ front
            ∙ int_part-digit (v / 10) (suc n) (v % 10) rest (omega arith) (omega (arith, le))
            ∙ ap (λ ip. int_part ip (suc (suc n)) rest)
                (let back : v / 10 * 10 + v % 10 ≡ v = omega arith in back)),
      )
]

-- The number that digits denote after those that denote `f`.
abbrev pub horner : ℕ → List ℕ → ℕ
horner f [] = f
horner f (c ∷ t) = horner (f * 10 + (c - 48)) t

abbrev pub AllDigits : List ℕ → Type 0
AllDigits t = All (λ c. is_digit c ≡ true) t

abbrev pub zeros : ℕ → List ℕ
zeros zero = []
zeros (suc k) = 48 ∷ zeros k

pub frac_part-horner :
    (f n : ℕ) (t : List ℕ)
    → AllDigits t
    → n + length t ≤ frac_digits
    → frac_part f n t ≡ some (horner f t, n + length t, [])
unfolding frac_part
frac_part-horner f n [] h le =
    ap (λ m. some (f, m, [])) (let same : n ≡ n + 0 = omega arith in same)
frac_part-horner f n (c ∷ t) h le =
    let room : (n == frac_digits) ≡ false = ground (arith, le) in
    rw (h.0, room)
      (frac_part-horner (f * 10 + (c - 48)) (suc n) t h.1 (omega (arith, le))
        ∙ ap (λ m. some (horner (f * 10 + (c - 48)) t, m, [])) (omega arith))

pub pad-zeros : (k f : ℕ) → pad k f ≡ horner f (zeros k)
unfolding pad
pad-zeros zero f = refl
pad-zeros (suc k) f = pad-zeros k (f * 10) ∙ ap (λ g. horner g (zeros k)) (omega arith)

pub horner-append : (f : ℕ) (xs ys : List ℕ) → horner f (xs ++ ys) ≡ horner (horner f xs) ys
horner-append f [] ys = refl
horner-append f (c ∷ xs) ys = horner-append (f * 10 + (c - 48)) xs ys

pub horner-put_digits :
    (k frac : ℕ) (digits : List ℕ)
    → frac < 10 ^ k
    → horner 0 (put_digits k frac digits) ≡ horner frac digits
unfolding put_digits
horner-put_digits zero frac digits h =
    ap (λ f. horner f digits) (let same : 0 ≡ frac = omega (arith, h) in same)
horner-put_digits (suc k) frac digits h =
    horner-put_digits k (frac / 10) ((48 + frac % 10) ∷ digits) (omega (arith, h))
    ∙ ap (λ f. horner f digits)
        (let same : frac / 10 * 10 + (48 + frac % 10 - 48) ≡ frac = omega arith in same)

pub put_digits-AllDigits :
    (k frac : ℕ) (digits : List ℕ)
    → AllDigits digits
    → AllDigits (put_digits k frac digits) × (length (put_digits k frac digits) ≡ k + length digits)
unfolding put_digits
put_digits-AllDigits zero frac digits h = (h, omega arith)
put_digits-AllDigits (suc k) frac digits h =
    let (all, size) =
      put_digits-AllDigits k (frac / 10) ((48 + frac % 10) ∷ digits)
        (digit_is_digit (frac % 10) (omega arith), h) in
    (all, omega (arith, size))

pub trim-AllDigits : (t : List ℕ) → AllDigits t → AllDigits (trim t)
unfolding trim
trim-AllDigits [] h = tt
trim-AllDigits (c ∷ t) h =
    let rest = trim-AllDigits t h.1 in
    if-split AllDigits (c == 48 && is_empty (trim t)) (λ e. tt) (λ e. (h.0, rest))

empty_list : (t : List ℕ) → is_empty t ≡ true → t ≡ []
empty_list [] h = refl
empty_list (c ∷ t) h = absurd (ground arith)

-- What was trimmed are zeros.
pub trim-zeros : (t : List ℕ) → (k : ℕ) × (trim t ++ zeros k ≡ t) × (length (trim t) + k ≡ length t)
unfolding trim
trim-zeros [] = (0, refl, refl)
trim-zeros (c ∷ t) =
    let (k, same, size) = trim-zeros t in
    elim (Bool-cases (c == 48 && is_empty (trim t))) [
      | inl e ↦
          let nothing : trim t ≡ [] = empty_list (trim t) (ground arith) in
          let zero_byte : 48 ≡ c = ground arith in
          let left : zeros k ≡ t = (rw nothing at same) in
          (
            suc k,
            rw e (ap₂ (λ b xs. b ∷ xs) zero_byte left),
            rw e (omega (arith, size, ap length nothing)),
          )
      | inr e ↦ (k, rw e (ap (λ xs. c ∷ xs) same), rw e (omega (arith, size)))
    ]
