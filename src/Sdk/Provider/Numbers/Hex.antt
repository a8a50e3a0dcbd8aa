-- ===== src/Sdk/Provider/Numbers/Hex.antt =====
-- A chain number that is written in hex or in decimal digits is read again.
use walletpair.Common.{
  every, leb, [], ℕ, zero, suc, ◌+◌, ◌*◌, ◌/◌, ◌%◌, ◌≤◌, ◌<◌, ◌≡◌, refl, ap, ◌∙◌, arith, String,
  Bool, true, false, Option, none, some, List, ◌∷◌, ◌&&◌, ◌==◌, ltb, codes, Bool-cases, inl, inr,
}
use Prim.Native.Char.{code}
use walletpair.Sdk.Provider.Numbers.{
  is_white_space, digit, digit_value, parse_digits, parse_int, parse_unsigned, or_zero,
  print_digits, to_text, hex_chain, trim_start, signed,
}
use walletpair.Sdk.Crypto.PairingUris.{starts_with}

-- A test of all numbers below one.
abbrev holds_below : (ℕ → Bool) → ℕ → Bool
holds_below test zero = true
holds_below test (suc n) = test n && holds_below test n

holds_below-at : (test : ℕ → Bool) (n d : ℕ) → holds_below test n ≡ true → d < n → test d ≡ true
holds_below-at test zero d h l = absurd (omega (arith, l))
holds_below-at test (suc n) d h l = elim (Bool-cases (d == n)) [
  | inl e ↦ let same : d ≡ n = ground arith in rw same (ground arith)
  | inr e ↦ holds_below-at test n d (ground arith) (ground arith)
]

abbrev is_read : Option ℕ → ℕ → Bool
is_read none d = false
is_read (some x) d = x == d

is_read_lem : (o : Option ℕ) (d : ℕ) → is_read o d ≡ true → o ≡ some d
is_read_lem none d h = absurd (ground arith)
is_read_lem (some x) d h = ap some (ground arith)

-- A test of the digits below a radix.
digits_read : (radix : ℕ) → Bool
digits_read radix = holds_below (λ d. is_read (digit_value radix (code (digit d))) d) radix

module _ (radix : ℕ) (readable : digits_read radix ≡ true)
    (split : (n fuel : ℕ)
      → n ≤ suc fuel
      → ltb n radix ≡ false
      → (n / radix * radix + n % radix ≡ n) × (n / radix ≤ fuel) × (n % radix < radix))
    (positive_radix : 0 < radix) where
  parse-code :
      (read : Option ℕ) (c d : ℕ) (rest : List ℕ)
      → digit_value radix c ≡ some d
      → parse_digits radix read (c ∷ rest)
        ≡ parse_digits radix (some (or_zero read * radix + d)) rest
  unfolding parse_digits
  parse-code read c d rest e = rw (parse_digits, e) refl

  parse-digit :
      (read : Option ℕ) (d : ℕ) (rest : List ℕ)
      → d < radix
      → parse_digits radix read (code (digit d) ∷ rest)
        ≡ parse_digits radix (some (or_zero read * radix + d)) rest
  unfolding digits_read
  parse-digit read d rest h = parse-code read (code (digit d)) d rest (
      is_read_lem (digit_value radix (code (digit d))) d
        (holds_below-at (λ x. is_read (digit_value radix (code (digit x))) x) radix d readable h))

  first :
      (n : ℕ) (rest : String)
      → n < radix
      → parse_digits radix none (code (digit n) ∷ codes rest)
        ≡ parse_digits radix (some n) (codes rest)
  first n rest h =
      parse-digit none n (codes rest) h
      ∙ ap (λ x. parse_digits radix (some x) (codes rest))
          (let z : 0 * radix + n ≡ n = grind arith in z)

  parse-print_digits :
      (fuel n : ℕ) (rest : String)
      → n ≤ fuel
      → parse_digits radix none (codes (print_digits radix fuel n rest))
        ≡ parse_digits radix (some n) (codes rest)
  unfolding print_digits
  parse-print_digits zero n rest h = first n rest (omega (arith, h, positive_radix))
  parse-print_digits (suc fuel) n rest h = elim (Bool-cases (ltb n radix)) [
    | inl e ↦ rw e (first n rest (ground arith))
    | inr e ↦
        let (again, smaller, last) = split n fuel h e in
        rw e (
          parse-print_digits fuel (n / radix) (String.◌∷◌ (digit (n % radix)) rest) smaller
          ∙ parse-digit (some (n / radix)) (n % radix) (codes rest) last
          ∙ ap (λ x. parse_digits radix (some x) (codes rest)) again)
  ]

digits_read-16 : digits_read 16 ≡ true
unfolding digits_read digit_value
digits_read-16 = refl

digits_read-10 : digits_read 10 ≡ true
unfolding digits_read digit_value
digits_read-10 = refl

pub parse_int-hex_chain : (n : ℕ) → parse_int 16 (codes (hex_chain n)) ≡ signed false (some n)
unfolding parse_int hex_chain to_text parse_unsigned trim_start starts_with
parse_int-hex_chain n = ap (signed false) (
    parse-print_digits 16 digits_read-16
      (λ m fuel h e. (omega arith, let l : m / 16 ≤ fuel = ground (arith, h, e) in l, omega arith))
      (omega arith) n n "" (omega arith))

parse_digits-decimal : (n : ℕ) → parse_digits 10 none (codes (to_text 10 n)) ≡ some n
unfolding to_text parse_digits
parse_digits-decimal n =
    parse-print_digits 10 digits_read-10
      (λ m fuel h e. (omega arith, let l : m / 10 ≤ fuel = ground (arith, h, e) in l, omega arith))
      (omega arith) n n "" (omega arith)

abbrev pub is_decimal : ℕ → Bool
is_decimal c = leb b'0' c && leb c b'9'

decimal_digit : (d : ℕ) → d < 10 → is_decimal (code (digit d)) ≡ true
decimal_digit d h = holds_below-at (λ x. is_decimal (code (digit x))) 10 d refl h

-- Printing puts decimal digits before a text.
every-print_digits :
    (fuel n : ℕ) (rest : String)
    → n ≤ fuel
    → every is_decimal (codes rest) ≡ true
    → every is_decimal (codes (print_digits 10 fuel n rest)) ≡ true
unfolding print_digits
every-print_digits zero n rest l h = let d = decimal_digit n (omega (arith, l)) in rw (d, h) refl
every-print_digits (suc fuel) n rest l h = elim (Bool-cases (ltb n 10)) [
  | inl e ↦ let d = decimal_digit n (ground arith) in rw (e, every, d, h) refl
  | inr e ↦
      let d = decimal_digit (n % 10) (omega arith) in
      rw e (
        every-print_digits fuel (n / 10) (String.◌∷◌ (digit (n % 10)) rest) (ground arith)
          (rw (d, h) refl))
]

decimal_plain :
    (c : ℕ)
    → is_decimal c ≡ true
    → (is_white_space c ≡ false) × ((c == b'-') ≡ false) × ((c == b'+') ≡ false)
decimal_plain c h = (ground arith, ground arith, ground arith)

-- A text of decimal digits has no sign, no white space and no prefix.
parse_int-digits :
    (cs : List ℕ) (n : ℕ)
    → every is_decimal cs ≡ true
    → parse_digits 10 none cs ≡ some n
    → parse_int 10 cs ≡ signed false (some n)
unfolding parse_int parse_unsigned trim_start parse_digits
parse_int-digits [] n h e = cc
parse_int-digits (c ∷ cs) n h e =
    let (space, minus, plus) = decimal_plain c (ground (arith, h)) in
    rw (space, minus, plus) (ap (signed false) e)

decimal-unprefixed :
    (cs : List ℕ) → every is_decimal cs ≡ true → starts_with (codes "0x") cs ≡ false
unfolding starts_with
decimal-unprefixed [] h = refl
decimal-unprefixed (c ∷ []) h = ground arith
decimal-unprefixed (c ∷ d ∷ cs) h = ground (arith, h)

pub to_text-decimal : (n : ℕ) → every is_decimal (codes (to_text 10 n)) ≡ true
unfolding to_text
to_text-decimal n = every-print_digits n n "" (omega arith) refl

pub parse_int-to_text :
    (n : ℕ)
    → (parse_int 10 (codes (to_text 10 n)) ≡ signed false (some n))
      × (starts_with (codes "0x") (codes (to_text 10 n)) ≡ false)
parse_int-to_text n = (
  parse_int-digits (codes (to_text 10 n)) n (to_text-decimal n) (parse_digits-decimal n),
  decimal-unprefixed (codes (to_text 10 n)) (to_text-decimal n),
)
