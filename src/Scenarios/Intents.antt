-- ===== src/Scenarios/Intents.antt =====
-- A payment intent of the shop.
use rs8kvn_bot.Common.{◌≡◌, refl, arith}
use rs8kvn_bot.Common.Int.{pos}
use rs8kvn_bot.Database.Models.{Order}
use rs8kvn_bot.Database.Monad.{ok, transaction}
use rs8kvn_bot.Database.Orders.Intent.{find_or_create_pending_payment_order, find_or_create_body}
use rs8kvn_bot.Database.Orders.Intent.Validity.{IsValid}
use rs8kvn_bot.Database.Orders.Intent.Laws.{Offers, find_or_create-Offers, find_or_create_returns}
use rs8kvn_bot.Scenarios.{shop, shop_tables, purchase}

shop-IsValid : IsValid shop_tables
shop-IsValid = record {
  one_intent = λ s p. ground arith;
  one_id = λ i. ground arith;
  ids_given = (omega arith, tt);
}

find_or_create-Offers_example :
    Offers 7 3
      (pos 500)
      "RUB"
      900
      purchase
      (find_or_create_pending_payment_order 7 3 (pos 500) "RUB" 900 shop).1.tables
unfolding find_or_create_pending_payment_order find_or_create_body transaction
find_or_create-Offers_example =
    find_or_create-Offers 7 3 (pos 500) "RUB" 900 shop purchase shop-IsValid refl

find_or_create_returns_example :
    (o : Order) × ((find_or_create_pending_payment_order 7 3 (pos 500) "RUB" 900 shop).0 ≡ ok o)
    × Offers 7 3
        (pos 500)
        "RUB"
        900
        o
        (find_or_create_pending_payment_order 7 3 (pos 500) "RUB" 900 shop).1.tables
find_or_create_returns_example =
    find_or_create_returns 7 3 (pos 500) "RUB" 900 shop (λ n. refl) shop-IsValid refl
