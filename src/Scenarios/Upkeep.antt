-- ===== src/Scenarios/Upkeep.antt =====
-- The shop's product is edited, and its subscription runs out.
use rs8kvn_bot.Common.{some, ◌≡◌, refl, arith, find}
use rs8kvn_bot.Common.Int.{pos}
use rs8kvn_bot.Database.Models.{Product}
use rs8kvn_bot.Database.Products.{has_id, update_product_guarded}
use rs8kvn_bot.Database.Products.Laws.{SameTerms, update_product_guarded-SameTerms}
use rs8kvn_bot.Scenarios.{shop, month}

abbrev cheaper : Product
cheaper = record month { price_cents = pos 9900 }

update_product_guarded-SameTerms_example :
    (p : Product) × (find (has_id 3) (update_product_guarded cheaper shop).1.tables.products
      ≡ some p)
    × SameTerms month p
update_product_guarded-SameTerms_example =
    update_product_guarded-SameTerms cheaper month shop (ground arith) refl
