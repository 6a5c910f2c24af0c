-- ===== src/Scenarios/Plans.antt =====
-- Plans applied to the bindings of the shop.
use rs8kvn_bot.Common.{some, List, refl, arith}
use mathlib.Core.List.Perm
use rs8kvn_bot.Database.Models.{SubscriptionNode}
use rs8kvn_bot.Database.Orders.Confirm.Activation.{OnlyNodes}
use rs8kvn_bot.Service.PlanReconcile.{
  apply_plan_to_subscription_in_tx, apply_plan_to_subscription_locked,
}
use rs8kvn_bot.Service.PlanReconcile.Table.{apply_transition}
use rs8kvn_bot.Service.PlanReconcile.Laws.{IsKeyed}
use rs8kvn_bot.Service.PlanReconcile.Stores.{in_plan}
use rs8kvn_bot.Service.PlanReconcile.Apply.{
  Applied, apply_in_tx_transitions, apply_in_background_transitions,
}
use rs8kvn_bot.Service.PlanReconcile.Frame.{apply_in_tx-OnlyNodes}
use rs8kvn_bot.Scenarios.{shop, shop_tables, alice}

abbrev pub in_order : List SubscriptionNode → List SubscriptionNode
in_order rows = rows

shop-IsKeyed : IsKeyed 7 shop_tables.subscription_nodes
shop-IsKeyed n = ground arith

apply_in_tx_transitions_example :
    Applied 7
      (λ n. apply_transition 7 n (in_plan shop_tables 2 n))
      (apply_plan_to_subscription_in_tx in_order 7 2)
      shop
apply_in_tx_transitions_example =
    apply_in_tx_transitions in_order (λ l. Perm.refl l) 7 2 shop (λ n. refl) shop-IsKeyed

apply_in_background_transitions_example :
    Applied 7
      (λ n. apply_transition 7 n (in_plan shop_tables 1 n))
      (apply_plan_to_subscription_locked in_order 7)
      shop
apply_in_background_transitions_example =
    apply_in_background_transitions in_order (λ l. Perm.refl l) 7 alice shop (λ n. refl)
      shop-IsKeyed refl refl

apply_in_tx-OnlyNodes_example : OnlyNodes (some (apply_plan_to_subscription_in_tx in_order))
apply_in_tx-OnlyNodes_example = apply_in_tx-OnlyNodes in_order
