-- ===== src/Protocol/Risk/Limits.antt =====
-- What an approval means in whole numbers, and where the machine arithmetic lets an order through.
use hft_fix_engine.Base.{
  ℕ, ℤ, pos, ◌*◌, ◌/◌, ◌%◌, ◌^◌, ◌<◌, ◌≤◌, ◌≡◌, ◌↔◌, sym, subst, ◌-ℤ◌, -ℤ_parts, ◌≤ℤ◌, ◌<ℤ◌, to_u32,
  false, arith,
}
use native.Mathlib.Nat.{mod-eq_of_lt}
use hft_fix_engine.Protocol.ParsedOrder.{ParsedOrder}
use hft_fix_engine.Protocol.Risk.{
  PreTradeRiskManager, RiskLimits, approved, deviation, notional_usd, evaluate_order,
}

-- What the limits promise of an order of `q` shares at price `p`.
pub record Permitted (limits : RiskLimits) (q p : ℕ) (reference : ℤ) : Type 0 where
  pub enabled : limits.kill_switch_active ≡ false
  pub within_qty : q ≤ limits.max_order_qty
  pub not_above : pos 0 <ℤ reference → (pos p -ℤ reference) ≤ℤ limits.max_price_deviation_scaled
  pub not_below : pos 0 <ℤ reference → (reference -ℤ pos p) ≤ℤ limits.max_price_deviation_scaled
  pub within_notional : q * p / 1000000 ≤ limits.max_notional_value_usd

deviation_le : (p r d : ℤ) → (deviation p r ≤ℤ d) ↔ (((p -ℤ r) ≤ℤ d) × ((r -ℤ p) ≤ℤ d))
unfolding deviation
deviation_le p r d = ground (arith, -ℤ_parts p r, -ℤ_parts r p)

notional_usd_exact :
    (order : ParsedOrder) (q p : ℕ)
    → order.quantity ≡ pos q
    → order.price ≡ pos p
    → q < 2 ^ 31
    → p < 2 ^ 63
    → q * p < 2 ^ 64
    → notional_usd order ≡ q * p / 1000000
unfolding notional_usd
notional_usd_exact order q p eq ep small_q small_p product =
    let a : q % 2 ^ 64 ≡ q = mod-eq_of_lt (omega (arith, small_q)) in
    let b : p % 2 ^ 64 ≡ p = mod-eq_of_lt (omega (arith, small_p)) in
    let c : q * p % 2 ^ 64 ≡ q * p = mod-eq_of_lt product in rw (eq, ep, a, b, c)

-- The four tests, as the code makes them.
record Passed (limits : RiskLimits) (order : ParsedOrder) (reference : ℤ) : Type 0 where
  enabled : limits.kill_switch_active ≡ false
  qty : pos 0 <ℤ order.quantity → to_u32 order.quantity ≤ limits.max_order_qty
  collar : pos 0 <ℤ reference → deviation order.price reference ≤ℤ limits.max_price_deviation_scaled
  notional : notional_usd order ≤ limits.max_notional_value_usd

evaluate_order-Passed :
    (m : PreTradeRiskManager) (order : ParsedOrder) (reference : ℤ)
    → (evaluate_order m order reference).0.status ≡ approved
    → Passed m.limits order reference
unfolding evaluate_order
evaluate_order-Passed m order reference ok = ground arith

Passed-evaluate_order :
    (m : PreTradeRiskManager) (order : ParsedOrder) (reference : ℤ)
    → Passed m.limits order reference
    → (evaluate_order m order reference).0.status ≡ approved
unfolding evaluate_order
Passed-evaluate_order m order reference ok = ground arith

-- A size in range is the machine's own number.
size_iff : (q most : ℕ) → q < 2 ^ 31 → (pos 0 <ℤ pos q → to_u32 (pos q) ≤ most) ↔ (q ≤ most)
size_iff q most small = ground arith

module _ (limits : RiskLimits) (order : ParsedOrder) (reference : ℤ) (q p : ℕ)
    (eq : order.quantity ≡ pos q) (ep : order.price ≡ pos p) (small_q : q < 2 ^ 31)
    (small_p : p < 2 ^ 63) (product : q * p < 2 ^ 64) where
  abbrev Near : ℤ → Type 0
  Near price = deviation price reference ≤ℤ limits.max_price_deviation_scaled

  abbrev Small : ℤ → Type 0
  Small quantity = pos 0 <ℤ quantity → to_u32 quantity ≤ limits.max_order_qty

  collar_iff : Near (pos p) ↔ (
      ((pos p -ℤ reference) ≤ℤ limits.max_price_deviation_scaled)
      × ((reference -ℤ pos p) ≤ℤ limits.max_price_deviation_scaled))
  collar_iff = deviation_le (pos p) reference limits.max_price_deviation_scaled

  Passed-Permitted : Passed limits order reference → Permitted limits q p reference
  Passed-Permitted pa = record {
    enabled = pa.enabled;
    within_qty = (size_iff q limits.max_order_qty small_q).0 (subst Small eq pa.qty);
    not_above = λ r. (collar_iff.0 (subst Near ep (pa.collar r))).0;
    not_below = λ r. (collar_iff.0 (subst Near ep (pa.collar r))).1;
    within_notional =
        subst (λ x. x ≤ limits.max_notional_value_usd)
          (notional_usd_exact order q p eq ep small_q small_p product) pa.notional;
  }

  Permitted-Passed : Permitted limits q p reference → Passed limits order reference
  Permitted-Passed ok = record {
    enabled = ok.enabled;
    qty = subst Small (sym eq) ((size_iff q limits.max_order_qty small_q).1 ok.within_qty);
    collar = λ r. subst Near (sym ep) (collar_iff.1 (ok.not_above r, ok.not_below r));
    notional =
        subst (λ x. x ≤ limits.max_notional_value_usd)
          (sym (notional_usd_exact order q p eq ep small_q small_p product)) ok.within_notional;
  }

-- An order whose size, price and their product are in the range of the machine is approved exactly
-- when every limit holds of it in whole numbers.
pub evaluate_order-Permitted :
    (m : PreTradeRiskManager) (order : ParsedOrder) (reference : ℤ) (q p : ℕ)
    → order.quantity ≡ pos q
    → order.price ≡ pos p
    → q < 2 ^ 31
    → p < 2 ^ 63
    → q * p < 2 ^ 64
    → ((evaluate_order m order reference).0.status ≡ approved) ↔ Permitted m.limits q p reference
evaluate_order-Permitted m order reference q p eq ep small_q small_p product = (
  λ ok.
      Passed-Permitted m.limits order reference q p eq ep small_q small_p product
        (evaluate_order-Passed m order reference ok),
  λ ok.
      Passed-evaluate_order m order reference
        (Permitted-Passed m.limits order reference q p eq ep small_q small_p product ok),
)
