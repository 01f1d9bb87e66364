-- ===== src/Base/Text.antt =====
-- Text as its bytes: literals, and the decimal print of `%llu`.
use Prim.Native.Nat.{ℕ, zero, suc, ◌+◌, ◌/◌, ◌%◌, ◌^◌, ◌≤◌, ◌<◌}
use Prim.Native.Char.{code}
use Prim.Native.String.{String}
use mathlib.Core.List.{[], ◌∷◌}
use native.Mathlib.Omega.{arith}
use native.Mathlib.Nat.{pow-suc}
use hft_fix_engine.Base.Tests.{ltb, if◌then◌else◌}
use hft_fix_engine.Base.Lists.{length}
use hft_fix_engine.Base.Words.{Bytes}

abbrev pub codes : String → Bytes
codes String.[] = []
codes (String.◌∷◌ c s) = code c ∷ codes s

-- The digits of `n` in front of `acc`, at most `fuel` of them.
unfoldable pub decimal_onto : ℕ → ℕ → Bytes → Bytes
decimal_onto zero n acc = acc
decimal_onto (suc fuel) n acc =
    let more = decimal_onto fuel (n / 10) ((b'0' + n % 10) ∷ acc) in
    if ltb n 10 then (b'0' + n) ∷ acc else more

-- Twenty digits hold every `uint64_t`.
unfoldable pub decimal : ℕ → Bytes
unfolding decimal_onto
decimal n = decimal_onto 20 n []

length-decimal_onto :
    (fuel n : ℕ) (acc : Bytes) → length (decimal_onto fuel n acc) ≤ fuel + length acc
unfolding decimal_onto
length-decimal_onto zero n acc = omega arith
length-decimal_onto (suc fuel) n acc =
    ground (arith, length-decimal_onto fuel (n / 10) ((b'0' + n % 10) ∷ acc))

pub length-decimal : (n : ℕ) → length (decimal n) ≤ 20
unfolding decimal
length-decimal n = omega (arith, length-decimal_onto 20 n [])

-- A number below 10 ^ (f + 1) takes at most f + 1 digits.
length-decimal_onto_lt :
    (f fuel n : ℕ) (acc : Bytes)
    → n < 10 ^ suc f
    → length (decimal_onto fuel n acc) ≤ suc f + length acc
unfolding decimal_onto
length-decimal_onto_lt f zero n acc h = omega arith
length-decimal_onto_lt zero (suc fuel) n acc h =
    let small : n < 10 = omega (arith, pow-suc 10 0) in ground arith
length-decimal_onto_lt (suc f) (suc fuel) n acc h =
    let next : n / 10 < 10 ^ suc f = omega (arith, pow-suc 10 (suc f)) in
    ground (arith, length-decimal_onto_lt f fuel (n / 10) ((b'0' + n % 10) ∷ acc) next)

pub length-decimal_lt : (n : ℕ) → n < 10 ^ 19 → length (decimal n) ≤ 19
unfolding decimal
length-decimal_lt n h = omega (arith, length-decimal_onto_lt 18 20 n [] h)
