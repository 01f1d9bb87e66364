-- ===== src/Protocol/FixParser/Price.antt =====
-- What a price text means, and the print that a price is read back from.
use hft_fix_engine.Base.{
  ℕ, zero, suc, ◌+◌, ◌-◌, ◌*◌, ◌/◌, ◌%◌, ◌^◌, ◌<◌, ◌≡◌, refl, sym, ap, ◌∙◌, ℤ, pos, negsuc,
  pos_part, neg_part, true, false, [], ◌∷◌, ◌++◌, All, ltb, lt→ltb, ◌==◌, Bytes, arith, IsDigit,
  starts_digit, number_onto, number_onto-decimal, decimal, All-decimal, length-decimal_pos,
  starts_digit-append,
}
use native.Mathlib.Nat.{pow-suc}
use hft_fix_engine.Protocol.FixParser.{
  read_integer, read_decimals, parse_magnitude, int64_of, parse_fixed_point_price,
}

-- The first `places` of some decimals, each with its weight.
abbrev pub weighted : ℕ → Bytes → ℕ
weighted zero ds = 0
weighted (suc places) [] = 0
weighted (suc places) (d ∷ ds) = (d - b'0') * 10 ^ places + weighted places ds

weighted-nil : (places : ℕ) → weighted places [] ≡ 0
weighted-nil zero = refl
weighted-nil (suc places) = refl

ten-pow-pos : (n : ℕ) → 0 < 10 ^ n
ten-pow-pos zero = omega arith
ten-pow-pos (suc n) = omega (arith, pow-suc 10 n, ten-pow-pos n)

-- Wrapping on the way changes nothing modulo 2 ^ 64.
number_onto_mod :
    (n : ℕ) (ds : Bytes) → number_onto (n % 2 ^ 64) ds % 2 ^ 64 ≡ number_onto n ds % 2 ^ 64
number_onto_mod n [] = omega arith
number_onto_mod n (d ∷ ds) =
    sym (number_onto_mod (n % 2 ^ 64 * 10 + (d - b'0')) ds)
    ∙ ap (λ m. number_onto m ds % 2 ^ 64)
        (let e : (n % 2 ^ 64 * 10 + (d - b'0')) % 2 ^ 64 ≡ (n * 10 + (d - b'0')) % 2 ^ 64 =
            omega arith in
          e)
    ∙ number_onto_mod (n * 10 + (d - b'0')) ds

read_integer-append :
    (n : ℕ) (ds rest : Bytes)
    → n < 2 ^ 64
    → All IsDigit ds
    → starts_digit rest ≡ false
    → read_integer n (ds ++ rest) ≡ (number_onto n ds % 2 ^ 64, rest)
unfolding read_integer
read_integer-append n [] [] w h stop = ap (λ m. (m, [])) (omega arith)
read_integer-append n [] (c ∷ cs) w h stop =
    rw (stop, read_integer) (ap (λ m. (m, c ∷ cs)) (omega arith))
read_integer-append n (d ∷ ds) rest w h stop =
    rw (h.0, read_integer)
      (read_integer-append ((n * 10 + (d - b'0')) % 2 ^ 64) ds rest (omega arith) h.1 stop
        ∙ ap (λ m. (m, rest)) (number_onto_mod (n * 10 + (d - b'0')) ds))

-- The multiplier with `places` left is 10 ^ places / 10: it is 0 with none left.
read_decimals-weighted :
    (value places : ℕ) (ds rest : Bytes)
    → value < 2 ^ 64
    → All IsDigit ds
    → starts_digit rest ≡ false
    → read_decimals value (10 ^ places / 10) (ds ++ rest) ≡ (value + weighted places ds) % 2 ^ 64
unfolding read_decimals
read_decimals-weighted value zero [] [] w h stop = omega arith
read_decimals-weighted value (suc places) [] [] w h stop = omega arith
read_decimals-weighted value places [] (c ∷ cs) w h stop =
    rw (stop, read_decimals) (omega (arith, weighted-nil places))
read_decimals-weighted value zero (d ∷ ds) rest w h stop = ground arith
read_decimals-weighted value (suc places) (d ∷ ds) rest w h stop =
    let tenth : 10 ^ suc places / 10 ≡ 10 ^ places = omega (arith, pow-suc 10 places) in
    let go : ltb 0 (10 ^ places) ≡ true = lt→ltb 0 (10 ^ places) (ten-pow-pos places) in
    let next = (value + (d - b'0') * 10 ^ places) % 2 ^ 64 in
    rw tenth (
      rw (h.0, go)
        (read_decimals-weighted next places ds rest (omega arith) h.1 stop
          ∙ (let e : ((value + (d - b'0') * 10 ^ places) % 2 ^ 64 + weighted places ds) % 2 ^ 64
                  ≡ (value + ((d - b'0') * 10 ^ places + weighted places ds)) % 2 ^ 64 =
                omega arith in
              e)))

-- A price text that is digits, a point and digits, with anything but a digit behind them, and that
-- means less than 2 ^ 63 millionths, is read as its integer part and its first six decimals, in
-- millionths. The decimals behind the sixth are cut off.
pub parse_magnitude-weighted :
    (is ds rest : Bytes)
    → All IsDigit is
    → All IsDigit ds
    → starts_digit rest ≡ false
    → number_onto 0 is * 1000000 + weighted 6 ds < 2 ^ 63
    → parse_magnitude (is ++ (b'.' ∷ (ds ++ rest))) ≡ number_onto 0 is * 1000000 + weighted 6 ds
unfolding parse_magnitude
parse_magnitude-weighted is ds rest hi hd stop small =
    let high = number_onto 0 is % 2 ^ 64 * 1000000 % 2 ^ 64 in
    rw (read_integer-append 0 is (b'.' ∷ (ds ++ rest)) (omega arith) hi refl)
      (read_decimals-weighted high 6 ds rest (omega arith) hd stop ∙ omega (arith, small))

-- The six digits of a number below 10 ^ 6.
abbrev pub six_digits : ℕ → Bytes
six_digits n =
    (b'0' + n / 100000 % 10)
    ∷ (b'0' + n / 10000 % 10)
    ∷ (b'0' + n / 1000 % 10)
    ∷ (b'0' + n / 100 % 10)
    ∷ (b'0' + n / 10 % 10)
    ∷ (b'0' + n % 10)
    ∷ []

-- A price in dollars, with six decimals.
abbrev pub print_magnitude : ℕ → Bytes
print_magnitude n = decimal (n / 1000000) ++ (b'.' ∷ six_digits (n % 1000000))

abbrev pub print_price : ℤ → Bytes
print_price (pos n) = print_magnitude n
print_price (negsuc n) = b'-' ∷ print_magnitude (suc n)

byte : (n : ℕ) → IsDigit (b'0' + n % 10)
byte n = ground arith

pub six_digits-IsDigit : (n : ℕ) → All IsDigit (six_digits n)
six_digits-IsDigit n = (
  byte (n / 100000),
  (byte (n / 10000), (byte (n / 1000), (byte (n / 100), (byte (n / 10), (byte n, tt))))),
)

weighted-six_digits : (n : ℕ) → n < 1000000 → weighted 6 (six_digits n) ≡ n
weighted-six_digits n h = omega arith

parse_magnitude-print : (n : ℕ) → n < 2 ^ 63 → parse_magnitude (print_magnitude n) ≡ n
parse_magnitude-print n h =
    let high = n / 1000000 in
    let low = n % 1000000 in
    let a = number_onto-decimal high (omega arith) in
    let b = weighted-six_digits low (omega arith) in
    parse_magnitude-weighted (decimal high) (six_digits low) [] (All-decimal high)
      (six_digits-IsDigit low) refl (omega (arith, a, b))
    ∙ omega (arith, a, b)

unsigned_price :
    (text : Bytes)
    → starts_digit text ≡ true
    → parse_fixed_point_price text ≡ int64_of (parse_magnitude text)
unfolding parse_fixed_point_price
unsigned_price [] s = cc
unsigned_price (c ∷ cs) s =
    let digit : (c == b'-') ≡ false = ground arith in rw (digit, parse_fixed_point_price) refl

int64_of_pos : (n : ℕ) → n < 2 ^ 63 → int64_of n ≡ pos n
int64_of_pos n h = rw (lt→ltb n (2 ^ 63) h) refl

int64_of_neg : (n : ℕ) → suc n < 2 ^ 63 → int64_of ((2 ^ 64 - suc n) % 2 ^ 64) ≡ negsuc n
int64_of_neg n h = ground arith

-- A price whose magnitude is below 2 ^ 63 millionths, below zero or not, is read back from its print.
pub parse_fixed_point_price-print_price :
    (price : ℤ)
    → pos_part price + neg_part price < 2 ^ 63
    → parse_fixed_point_price (print_price price) ≡ price
unfolding parse_fixed_point_price
parse_fixed_point_price-print_price (pos n) h =
    unsigned_price (print_magnitude n) (
      starts_digit-append (decimal (n / 1000000)) _ (All-decimal (n / 1000000))
        (length-decimal_pos (n / 1000000)))
    ∙ ap int64_of (parse_magnitude-print n (omega arith))
    ∙ int64_of_pos n (omega arith)
parse_fixed_point_price-print_price (negsuc n) h =
    ap (λ m. int64_of ((2 ^ 64 - m) % 2 ^ 64)) (parse_magnitude-print (suc n) (omega arith))
    ∙ int64_of_neg n (omega arith)
