-- ===== src/Decwire/Text.antt =====
-- The round trip of include/flox/util/decimal_wire.h, between `append` and `parse`.
use venue_core.Prelude.{
  ℕ, zero, suc, ◌+◌, ◌-◌, ◌*◌, ◌/◌, ◌%◌, ◌≤◌, ◌<◌, ◌≡◌, ◌≢◌, refl, sym, ap, ◌∙◌, ◌==◌, ltb, false,
  Bool-cases, inl, inr, none, some, List, [], ◌∷◌, ◌++◌, append-nil, length, arith,
}
use venue_core.Prelude.Int.{pos, negsuc}
use venue_core.Decwire.{
  k_scale, frac_digits, int64_max, int_part, frac_part, pad, compose, parse_frac, parse, to_chars,
  append_u64, put_digits, trim, append_abs, append,
}
use venue_core.Decwire.Digits.{
  int_part-to_chars, horner, zeros, frac_part-horner, pad-zeros, horner-append, horner-put_digits,
  put_digits-AllDigits, trim-AllDigits, trim-zeros,
}

-- The fraction as it is written.
abbrev fraction : ℕ → List ℕ
fraction frac = trim (put_digits frac_digits frac [])

frac_part-fraction :
    (frac : ℕ)
    → frac_part 0 0 (fraction frac) ≡ some (horner 0 (fraction frac), length (fraction frac), [])
frac_part-fraction frac =
    let (all, size) = put_digits-AllDigits frac_digits frac [] tt in
    let (k, same, total) = trim-zeros (put_digits frac_digits frac []) in
    frac_part-horner 0 0 (fraction frac) (trim-AllDigits (put_digits frac_digits frac []) all)
      (omega (arith, size, total))
    ∙ ap (λ m. some (horner 0 (fraction frac), m, [])) (omega arith)

pad-fraction :
    (frac : ℕ)
    → frac < k_scale
    → pad (frac_digits - length (fraction frac)) (horner 0 (fraction frac)) ≡ frac
pad-fraction frac h =
    let (all, size) = put_digits-AllDigits frac_digits frac [] tt in
    let (k, same, total) = trim-zeros (put_digits frac_digits frac []) in
    let missing : frac_digits - length (fraction frac) ≡ k = omega (arith, size, total) in
    ap (λ m. pad m (horner 0 (fraction frac))) missing
    ∙ pad-zeros k (horner 0 (fraction frac))
    ∙ sym (horner-append 0 (fraction frac) (zeros k))
    ∙ ap (horner 0) same
    ∙ horner-put_digits frac_digits frac [] (omega (arith, h))

pad-0 : (k : ℕ) → pad k 0 ≡ 0
unfolding pad
pad-0 zero = refl
pad-0 (suc k) = pad-0 k

horner-empty : (t : List ℕ) → length t ≡ 0 → horner 0 t ≡ 0
horner-empty [] h = refl
horner-empty (c ∷ t) h = absurd (omega (arith, h))

fraction-size : (frac : ℕ) → frac < k_scale → frac ≢ 0 → (length (fraction frac) == 0) ≡ false
fraction-size frac h some_frac = elim (Bool-cases (length (fraction frac) == 0)) [
  | inr e ↦ e
  | inl e ↦ absurd (
      some_frac (
        sym (pad-fraction frac h)
        ∙ ap (pad (frac_digits - length (fraction frac)))
            (horner-empty (fraction frac) (ground (arith, e)))
        ∙ pad-0 (frac_digits - length (fraction frac))))
]

compose-fits :
    (ip f n filled : ℕ)
    → pad (frac_digits - n) f ≡ filled
    → ip * k_scale + filled ≤ int64_max
    → compose ip (f, n, []) ≡ some (ip * k_scale + filled)
unfolding compose
compose-fits ip f n filled e le =
    let fits : ltb (int64_max - filled) (ip * k_scale) ≡ false = ground (arith, le) in
    rw (e, fits) refl

parse_frac-fraction :
    (ip frac : ℕ)
    → frac < k_scale
    → frac ≢ 0
    → ip * k_scale + frac ≤ int64_max
    → parse_frac ip (46 ∷ fraction frac) ≡ some (ip * k_scale + frac)
unfolding parse_frac
parse_frac-fraction ip frac h some_frac le =
    rw (frac_part-fraction frac, fraction-size frac h some_frac)
      (compose-fits ip (horner 0 (fraction frac)) (length (fraction frac)) frac
        (pad-fraction frac h) le)

parse-int_part :
    (t : List ℕ) (ip n : ℕ) (rest : List ℕ)
    → int_part 0 0 t ≡ some (ip, suc n, rest)
    → parse t ≡ parse_frac ip rest
unfolding parse
parse-int_part t ip n rest e =
    let some_digits : (suc n == 0) ≡ false = ground arith in rw (e, parse, some_digits) refl

-- What follows the digits of the whole part decides the rest.
parse-whole :
    (v : ℕ) (rest : List ℕ)
    → v ≤ int64_max / k_scale
    → ((n : ℕ) → int_part v (suc n) rest ≡ some (v, suc n, rest))
    → parse (to_chars 20 v ++ rest) ≡ parse_frac v rest
parse-whole v rest le stops =
    let (n, read) = int_part-to_chars 19 v rest (omega (arith, le)) le in
    parse-int_part (to_chars 20 v ++ rest) v n rest (read ∙ stops n)

parse-append_abs : (n : ℕ) → n ≤ int64_max → parse (append_abs [] n) ≡ some n
unfolding append_abs append_u64 int_part parse_frac
parse-append_abs n le =
    let whole : n / k_scale ≤ int64_max / k_scale = omega (arith, le) in
    elim (Bool-cases (n % k_scale == 0)) [
      | inl e ↦ rw e (
          ap parse (sym (append-nil (to_chars 20 (n / k_scale))))
          ∙ parse-whole (n / k_scale) [] whole (λ k. refl)
          ∙ compose-fits (n / k_scale) 0 0 0 (pad-0 frac_digits) (omega (arith, le))
          ∙ ap some (let same : n / k_scale * k_scale + 0 ≡ n = ground arith in same))
      | inr e ↦ rw e (
          parse-whole (n / k_scale) (46 ∷ fraction (n % k_scale)) whole (λ k. refl)
          ∙ parse_frac-fraction (n / k_scale) (n % k_scale) (omega arith) (λ z. ground arith)
              (omega (arith, le))
          ∙ ap some (let same : n / k_scale * k_scale + n % k_scale ≡ n = omega arith in same))
    ]

parse-minus : (t : List ℕ) → parse (45 ∷ t) ≡ none
unfolding parse int_part
parse-minus t = refl

append_abs-after : (c u : ℕ) → (t : List ℕ) × (append_abs (c ∷ []) u ≡ c ∷ t)
unfolding append_abs append_u64
append_abs-after c u = elim (Bool-cases (u % k_scale == 0)) [
  | inl e ↦ (to_chars 20 (u / k_scale), rw e refl)
  | inr e ↦ (to_chars 20 (u / k_scale) ++ (46 ∷ fraction (u % k_scale)), rw e refl)
]

-- The text of every non-negative 64-bit number is read back as that number, and the text of a
-- negative one is refused.
pub parse-append :
    (n : ℕ)
    → n ≤ int64_max
    → (parse (append [] (pos n)) ≡ some n) × (parse (append [] (negsuc n)) ≡ none)
unfolding append
parse-append n le =
    let (t, minus) = append_abs-after 45 (n + 1) in
    (parse-append_abs n le, ap parse minus ∙ parse-minus t)
