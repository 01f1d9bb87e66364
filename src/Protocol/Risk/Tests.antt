-- ===== src/Protocol/Risk/Tests.antt =====
-- An order of 100 shares at ten dollars, under the default limits.
use hft_fix_engine.Base.{List, [], ◌∷◌, All, ◌≡◌, ◌↔◌, ℤ, pos, arith, refl, true}
use hft_fix_engine.Protocol.ParsedOrder.{ParsedOrder, default_order}
use hft_fix_engine.Protocol.Risk.{
  PreTradeRiskManager, default_limits, approved, rejected_kill_switch, evaluate_order, evaluate_all,
  set_kill_switch,
}
use hft_fix_engine.Protocol.Risk.Limits.{Permitted, evaluate_order-Permitted}
use hft_fix_engine.Protocol.Risk.Trace.{IsValid, set_kill_switch-evaluate_all}

abbrev order : ParsedOrder
order = record default_order { side = pos 1; quantity = pos 100; price = pos 10000000 }

abbrev orders : List (ParsedOrder × ℤ)
orders = (order, pos 10000000) ∷ (order, pos 90000000) ∷ []

abbrev manager : PreTradeRiskManager
manager = record { limits = default_limits; approved_count = 0; rejected_count = 0 }

evaluate_order-Permitted_example :
    ((evaluate_order manager order (pos 11000000)).0.status ≡ approved)
    ↔ Permitted manager.limits 100 10000000 (pos 11000000)
evaluate_order-Permitted_example =
    evaluate_order-Permitted manager order (pos 11000000) 100 10000000 refl refl (omega arith)
      (omega arith) (omega arith)

manager-IsValid : IsValid manager
manager-IsValid = omega arith

set_kill_switch-evaluate_all_example :
    let (rs, g) = evaluate_all (set_kill_switch true manager) orders in
    All (λ r. r.status ≡ rejected_kill_switch) rs × (g.approved_count ≡ manager.approved_count)
set_kill_switch-evaluate_all_example = set_kill_switch-evaluate_all manager orders
