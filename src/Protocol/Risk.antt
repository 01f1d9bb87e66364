-- ===== src/Protocol/Risk.antt =====
-- include/hft/protocol/PreTradeRiskManager.hpp: the gate that an order passes before it is executed.
-- What `snprintf` writes into the reason is its business: a reason is the format with its arguments.
pub mod Limits
pub mod Trace
mod Tests
use hft_fix_engine.Base.{
  ℕ, ℤ, pos, ◌+◌, ◌*◌, ◌/◌, ◌%◌, ◌^◌, ◌-ℤ◌, ltb_ℤ, to_u32, to_u64, Bool, true, false, List, [], ◌∷◌,
  ltb, if◌then◌else◌, ◌&&◌, add_u64,
}
use hft_fix_engine.Protocol.ParsedOrder.{ParsedOrder}

pub data RiskCheckStatus : Type 0 where
  approved rejected_max_qty rejected_price_collar rejected_max_notional : RiskCheckStatus
  rejected_kill_switch rejected_trading_halt : RiskCheckStatus

-- The text of a rejection before it is formatted: which one, with the values it prints.
pub data Reason : Type 0 where
  no_reason : Reason
  kill_switch_text : Reason
  qty_text : ℤ → ℕ → Reason
  collar_text : ℤ → ℤ → ℤ → Reason
  notional_text : ℕ → ℕ → Reason

pub record RiskCheckResult : Type 0 where
  pub status : RiskCheckStatus
  pub rejection_reason : Reason

pub record RiskLimits : Type 0 where
  pub max_order_qty : ℕ
  pub max_price_deviation_scaled : ℤ
  pub max_notional_value_usd : ℕ
  pub kill_switch_active : Bool

-- The initialisers of `RiskLimits`.
abbrev pub default_limits : RiskLimits
default_limits = record {
  max_order_qty = 50000;
  max_price_deviation_scaled = pos 5000000;
  max_notional_value_usd = 2000000;
  kill_switch_active = false;
}

pub record PreTradeRiskManager : Type 0 where
  pub limits : RiskLimits
  pub approved_count : ℕ
  pub rejected_count : ℕ

unfoldable pub new_manager : RiskLimits → PreTradeRiskManager
new_manager limits = record { limits = limits; approved_count = 0; rejected_count = 0 }

-- `dev`: the distance of the price from the reference.
unfoldable pub deviation : ℤ → ℤ → ℤ
deviation price reference = if ltb_ℤ reference price then price -ℤ reference else reference -ℤ price

-- `notional_usd`: the product is one of `uint64_t`.
unfoldable pub notional_usd : ParsedOrder → ℕ
notional_usd order = to_u64 order.quantity * to_u64 order.price % 2 ^ 64 / 1000000

abbrev reject :
    PreTradeRiskManager → RiskCheckStatus → Reason → RiskCheckResult × PreTradeRiskManager
reject m status reason = (
  record { status = status; rejection_reason = reason },
  record m { rejected_count = add_u64 m.rejected_count 1 },
)

unfoldable pub evaluate_order :
    PreTradeRiskManager → ParsedOrder → ℤ → RiskCheckResult × PreTradeRiskManager
evaluate_order m order reference =
    if m.limits.kill_switch_active
    then reject m rejected_kill_switch kill_switch_text
    else if ltb_ℤ (pos 0) order.quantity && ltb m.limits.max_order_qty (to_u32 order.quantity)
    then reject m rejected_max_qty (qty_text order.quantity m.limits.max_order_qty)
    else if ltb_ℤ (pos 0) reference
        && ltb_ℤ m.limits.max_price_deviation_scaled (deviation order.price reference)
    then reject m rejected_price_collar
        (collar_text order.price m.limits.max_price_deviation_scaled reference)
    else if ltb m.limits.max_notional_value_usd (notional_usd order)
    then reject m rejected_max_notional
        (notional_text (notional_usd order) m.limits.max_notional_value_usd)
    else (
      record { status = approved; rejection_reason = no_reason },
      record m { approved_count = add_u64 m.approved_count 1 },
    )

unfoldable pub set_kill_switch : Bool → PreTradeRiskManager → PreTradeRiskManager
set_kill_switch active m = record m { limits = record m.limits { kill_switch_active = active } }

unfoldable pub set_limits : RiskLimits → PreTradeRiskManager → PreTradeRiskManager
set_limits limits m = record m { limits = limits }

-- A run of orders, each with the reference of its moment.
unfoldable pub evaluate_all :
    PreTradeRiskManager → List (ParsedOrder × ℤ) → List RiskCheckResult × PreTradeRiskManager
evaluate_all m [] = ([], m)
evaluate_all m ((order, reference) ∷ rest) =
    let (r, m') = evaluate_order m order reference in
    let (rs, m'') = evaluate_all m' rest in (r ∷ rs, m'')
