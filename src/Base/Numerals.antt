-- ===== src/Base/Numerals.antt =====
-- Decimal digits: reading a run of them, and `std::from_chars` on whole numbers. A number out of the
-- range of its type, and a text with no digit, leave the target as it was.
use Prim.Native.Nat.{ℕ, zero, suc, ◌+◌, ◌-◌, ◌*◌, ◌/◌, ◌%◌, ◌^◌, ◌≤◌, ◌<◌}
use mathlib.Core.Path.{◌≡◌, refl, sym, ap, ◌∙◌}
use mathlib.Core.Logic.{inl, inr}
use mathlib.Core.Bool.{Bool, true, false, ◌&&◌}
use mathlib.Core.List.{[], ◌∷◌, ◌++◌, append-nil}
use native.Mathlib.Omega.{arith}
use native.Mathlib.Nat.{pow-suc}
use hft_fix_engine.Base.Tests.{ltb, leb, ◌==◌, Bool-cases, ltb→lt, lt→ltb, if◌then◌else◌}
use hft_fix_engine.Base.Lists.{All, length}
use hft_fix_engine.Base.Int.{ℤ, pos, negsuc}
use hft_fix_engine.Base.Words.{Bytes}
use hft_fix_engine.Base.Text.{decimal, decimal_onto}

-- `c >= '0' && c <= '9'`.
abbrev pub is_digit : ℕ → Bool
is_digit c = leb b'0' c && leb c b'9'

-- The loop `n = n * 10 + (*ptr - '0')` over the digits: the number, and where it stops.
unfoldable pub read_digits : ℕ → Bytes → ℕ × Bytes
read_digits n [] = (n, [])
read_digits n (c ∷ cs) =
    let more = read_digits (n * 10 + (c - b'0')) cs in if is_digit c then more else (n, c ∷ cs)

abbrev pub starts_digit : Bytes → Bool
starts_digit [] = false
starts_digit (c ∷ cs) = is_digit c

unfoldable pub from_chars_u64 : ℕ → Bytes → ℕ
unfolding read_digits
from_chars_u64 old text =
    let n = (read_digits 0 text).0 in
    if starts_digit text then (if ltb n (2 ^ 64) then n else old) else old

-- `-n`.
abbrev pub negated : ℕ → ℤ
negated zero = pos 0
negated (suc n) = negsuc n

abbrev from_digits : ℤ → ℕ → (ℕ → ℤ) → Bytes → ℤ
from_digits old bound sign text =
    let n = (read_digits 0 text).0 in
    if starts_digit text then (if ltb n bound then sign n else old) else old

-- For `int`.
unfoldable pub from_chars_int : ℤ → Bytes → ℤ
unfolding read_digits
from_chars_int old [] = old
from_chars_int old (c ∷ cs) =
    if c == b'-'
    then from_digits old (2 ^ 31 + 1) negated cs
    else from_digits old (2 ^ 31) pos (c ∷ cs)

-- The number that a run of digits writes, behind the digits of `n`.
abbrev pub number_onto : ℕ → Bytes → ℕ
number_onto n [] = n
number_onto n (c ∷ cs) = number_onto (n * 10 + (c - b'0')) cs

abbrev pub IsDigit : ℕ → Type 0
IsDigit c = is_digit c ≡ true

pub read_digits-append :
    (n : ℕ) (ds rest : Bytes)
    → All IsDigit ds
    → starts_digit rest ≡ false
    → read_digits n (ds ++ rest) ≡ (number_onto n ds, rest)
unfolding read_digits
read_digits-append n [] [] h stop = refl
read_digits-append n [] (c ∷ cs) h stop = rw (stop, read_digits) refl
read_digits-append n (d ∷ ds) rest h stop =
    rw (h.0, read_digits) (read_digits-append (n * 10 + (d - b'0')) ds rest h.1 stop)

number_onto-decimal_onto :
    (fuel n : ℕ) (acc : Bytes)
    → n < 10 ^ fuel
    → number_onto 0 (decimal_onto fuel n acc) ≡ number_onto n acc
unfolding decimal_onto
number_onto-decimal_onto zero n acc h =
    ap (λ m. number_onto m acc) (let e : 0 ≡ n = omega arith in e)
number_onto-decimal_onto (suc fuel) n acc h =
    let next : n / 10 < 10 ^ fuel = omega (arith, pow-suc 10 fuel) in
    elim (Bool-cases (ltb n 10)) [
      | inl one ↦
          rw (one, decimal_onto)
            (ap (λ m. number_onto m acc)
              (let e : 0 * 10 + (b'0' + n - b'0') ≡ n = omega arith in e))
      | inr more ↦
          rw (more, decimal_onto)
            (number_onto-decimal_onto fuel (n / 10) ((b'0' + n % 10) ∷ acc) next
              ∙ ap (λ m. number_onto m acc)
                  (let e : n / 10 * 10 + (b'0' + n % 10 - b'0') ≡ n = omega arith in e))
    ]

pub number_onto-decimal : (n : ℕ) → n < 10 ^ 20 → number_onto 0 (decimal n) ≡ n
unfolding decimal
number_onto-decimal n h = number_onto-decimal_onto 20 n [] h

digits-decimal_onto :
    (fuel n : ℕ) (acc : Bytes) → All IsDigit acc → All IsDigit (decimal_onto fuel n acc)
unfolding decimal_onto
digits-decimal_onto zero n acc h = h
digits-decimal_onto (suc fuel) n acc h =
    let rest = digits-decimal_onto fuel (n / 10) ((b'0' + n % 10) ∷ acc) (ground arith, h) in
    elim (Bool-cases (ltb n 10)) [
      | inl one ↦ rw (one, decimal_onto) (let small = ltb→lt n 10 one in (ground arith, h))
      | inr more ↦ rw (more, decimal_onto) rest
    ]

pub All-decimal : (n : ℕ) → All IsDigit (decimal n)
unfolding decimal
All-decimal n = digits-decimal_onto 20 n [] tt

length-decimal_onto_pos :
    (fuel n : ℕ) (acc : Bytes) → 0 < length acc → 0 < length (decimal_onto fuel n acc)
unfolding decimal_onto
length-decimal_onto_pos zero n acc h = h
length-decimal_onto_pos (suc fuel) n acc h =
    ground (arith, length-decimal_onto_pos fuel (n / 10) ((b'0' + n % 10) ∷ acc) (omega arith))

pub length-decimal_pos : (n : ℕ) → 0 < length (decimal n)
unfolding decimal decimal_onto
length-decimal_pos n =
    ground (arith, length-decimal_onto_pos 19 (n / 10) ((b'0' + n % 10) ∷ []) (omega arith))

pub starts_digit-append :
    (ds rest : Bytes) → All IsDigit ds → 0 < length ds → starts_digit (ds ++ rest) ≡ true
starts_digit-append [] rest h ne = absurd (omega arith)
starts_digit-append (d ∷ ds) rest h ne = h.0

read_digits-decimal :
    (n : ℕ) → n < 10 ^ 20 → (starts_digit (decimal n) ≡ true) × ((read_digits 0 (decimal n)).0 ≡ n)
read_digits-decimal n h = (
  ap starts_digit (sym (append-nil (decimal n)))
      ∙ starts_digit-append (decimal n) [] (All-decimal n) (length-decimal_pos n),
  ap (λ t. (read_digits 0 t).0) (sym (append-nil (decimal n)))
      ∙ ap (λ r. r.0) (read_digits-append 0 (decimal n) [] (All-decimal n) refl)
      ∙ number_onto-decimal n h,
)

pub from_chars_u64-decimal : (old n : ℕ) → n < 2 ^ 64 → from_chars_u64 old (decimal n) ≡ n
unfolding from_chars_u64
from_chars_u64-decimal old n h =
    let (starts, value) = read_digits-decimal n (omega arith) in
    rw (starts, value, lt→ltb n (2 ^ 64) h) refl

-- A whole number as text.
abbrev pub print_int : ℤ → Bytes
print_int (pos n) = decimal n
print_int (negsuc n) = b'-' ∷ decimal (suc n)

-- The range of `int`.
abbrev pub IsInt : ℤ → Type 0
IsInt (pos n) = n < 2 ^ 31
IsInt (negsuc n) = n < 2 ^ 31

from_chars_int_digits :
    (old : ℤ) (text : Bytes)
    → starts_digit text ≡ true
    → from_chars_int old text ≡ from_digits old (2 ^ 31) pos text
unfolding from_chars_int
from_chars_int_digits old [] s = cc
from_chars_int_digits old (c ∷ cs) s =
    let digit : (c == b'-') ≡ false = ground arith in rw (digit, from_chars_int) refl

from_digits-decimal :
    (old : ℤ) (bound n : ℕ) (sign : ℕ → ℤ)
    → n < bound
    → bound ≤ 2 ^ 32
    → from_digits old bound sign (decimal n) ≡ sign n
from_digits-decimal old bound n sign h le =
    let (starts, value) = read_digits-decimal n (omega arith) in
    rw (starts, value, lt→ltb n bound h) refl

pub from_chars_int-print_int : (old z : ℤ) → IsInt z → from_chars_int old (print_int z) ≡ z
unfolding from_chars_int
from_chars_int-print_int old (pos n) h =
    from_chars_int_digits old (decimal n) (read_digits-decimal n (omega arith)).0
    ∙ from_digits-decimal old (2 ^ 31) n pos h (omega arith)
from_chars_int-print_int old (negsuc n) h =
    from_digits-decimal old (2 ^ 31 + 1) (suc n) negated (omega arith) (omega arith)
