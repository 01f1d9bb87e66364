-- ===== src/Protocol/Risk/Trace.antt =====
-- Runs of orders through the gate: the two counters, and the kill switch.
use hft_fix_engine.Base.{
  ℕ, ℤ, ◌+◌, ◌-◌, ◌≤◌, ◌∙◌, ◌%◌, ◌^◌, ◌<◌, ◌≡◌, refl, true, List, [], ◌∷◌, All, length, arith,
}
use hft_fix_engine.Protocol.ParsedOrder.{ParsedOrder}
use hft_fix_engine.Protocol.Risk.{
  PreTradeRiskManager, RiskCheckResult, RiskCheckStatus, approved, rejected_max_qty,
  rejected_price_collar, rejected_max_notional, rejected_kill_switch, rejected_trading_halt,
  evaluate_order, evaluate_all, set_kill_switch,
}

abbrev one_if_approved : RiskCheckStatus → ℕ
one_if_approved approved = 1
one_if_approved rejected_max_qty = 0
one_if_approved rejected_price_collar = 0
one_if_approved rejected_max_notional = 0
one_if_approved rejected_kill_switch = 0
one_if_approved rejected_trading_halt = 0

-- How many results of a run are approvals.
abbrev pub approvals : List RiskCheckResult → ℕ
approvals [] = 0
approvals (r ∷ rs) = one_if_approved r.status + approvals rs

-- Both counters are machine words.
pub record IsValid (m : PreTradeRiskManager) : Type 0 where
  pub approved_in : m.approved_count < 2 ^ 64
  pub rejected_in : m.rejected_count < 2 ^ 64

evaluate_order-IsValid :
    (m : PreTradeRiskManager) (order : ParsedOrder) (reference : ℤ)
    → IsValid m
    → IsValid (evaluate_order m order reference).1
unfolding evaluate_order
evaluate_order-IsValid m order reference v = ground arith

evaluate_order_approvals :
    (m : PreTradeRiskManager) (order : ParsedOrder) (reference : ℤ)
    → IsValid m
    → let (r, m') = evaluate_order m order reference in
      (m'.approved_count ≡ (m.approved_count + one_if_approved r.status) % 2 ^ 64)
      × (m'.rejected_count ≡ (m.rejected_count + (1 - one_if_approved r.status)) % 2 ^ 64)
unfolding evaluate_order
evaluate_order_approvals m order reference v = ground arith

one_if_approved_le : (s : RiskCheckStatus) → one_if_approved s ≤ 1
one_if_approved_le s = ground arith

-- With counters in range, over any run of orders: the approved counter grows, modulo 2 ^ 64, by the
-- approvals among the results, and the rejected counter by the other orders of the run.
pub evaluate_all_counts :
    (m : PreTradeRiskManager) (orders : List (ParsedOrder × ℤ))
    → IsValid m
    → let (rs, g) = evaluate_all m orders in
      (g.approved_count ≡ (m.approved_count + approvals rs) % 2 ^ 64)
      × ((g.rejected_count + approvals rs) % 2 ^ 64 ≡ (m.rejected_count + length orders) % 2 ^ 64)
unfolding evaluate_all
evaluate_all_counts m [] v = ground (arith, v.approved_in)
evaluate_all_counts m ((order, reference) ∷ rest) v =
    let one = evaluate_order_approvals m order reference v in
    let more =
      evaluate_all_counts (evaluate_order m order reference).1 rest
        (evaluate_order-IsValid m order reference v) in
    let bit = one_if_approved_le (evaluate_order m order reference).0.status in
    (omega (arith, one, more), omega (arith, one, more, bit))

killed_one :
    (m : PreTradeRiskManager) (order : ParsedOrder) (reference : ℤ)
    → m.limits.kill_switch_active ≡ true
    → ((evaluate_order m order reference).0.status ≡ rejected_kill_switch)
      × ((evaluate_order m order reference).1.limits.kill_switch_active ≡ true)
      × ((evaluate_order m order reference).1.approved_count ≡ m.approved_count)
unfolding evaluate_order
killed_one m order reference on = ground arith

killed-All :
    (m : PreTradeRiskManager) (orders : List (ParsedOrder × ℤ))
    → m.limits.kill_switch_active ≡ true
    → All (λ r. r.status ≡ rejected_kill_switch) (evaluate_all m orders).0
      × ((evaluate_all m orders).1.approved_count ≡ m.approved_count)
unfolding evaluate_all
killed-All m [] on = (tt, refl)
killed-All m ((order, reference) ∷ rest) on =
    let (status, still, count) = killed_one m order reference on in
    let (statuses, counts) = killed-All (evaluate_order m order reference).1 rest still in
    ((status, statuses), counts ∙ count)

-- After the kill switch is set, every order of any run is rejected for it, whatever the limits, and
-- nothing is counted as approved.
pub set_kill_switch-evaluate_all :
    (m : PreTradeRiskManager) (orders : List (ParsedOrder × ℤ))
    → let (rs, g) = evaluate_all (set_kill_switch true m) orders in
      All (λ r. r.status ≡ rejected_kill_switch) rs × (g.approved_count ≡ m.approved_count)
unfolding set_kill_switch
set_kill_switch-evaluate_all m orders = killed-All (set_kill_switch true m) orders refl
