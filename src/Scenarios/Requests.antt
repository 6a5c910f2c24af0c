-- ===== src/Scenarios/Requests.antt =====
-- Two requests for a payment link of the shop's order race.
use rs8kvn_bot.Common.{true, none, some, [], ◌∷◌, ◌≡◌, refl, arith}
use rs8kvn_bot.Common.Int.{pos}
use rs8kvn_bot.Database.Models.{Order}
use rs8kvn_bot.Database.Monad.{Tables}
use rs8kvn_bot.Database.Subscriptions.{get_plan_by_id}
use rs8kvn_bot.Database.Orders.Intent.{mark_payment_creation_uncertain}
use rs8kvn_bot.Service.World.{World}
use rs8kvn_bot.Service.Order.Request.{
  Request, CreateAnswer, claim, if_for_sale, contact, when_answered,
}
use rs8kvn_bot.Service.Order.Request.Contacts.{contacts}
use rs8kvn_bot.Service.Order.Request.Once.{claim_once}
use rs8kvn_bot.Scenarios.{shop_tables, purchase, month}

abbrev intent : Order
intent = record purchase { provider_payment_id = "" }

abbrev tables : Tables
tables = record shop_tables {
  orders = intent ∷ [];
  plans =
      record {
        id = 1;
        name = "paid";
        is_active = true;
        devices_limit = pos 3;
        traffic_limit = pos 0;
      }
      ∷ [];
}

abbrev world : World
world = record {
  admin = record { has_admin_bot = true; telegram_admin_id = some (pos 7) };
  db = record { tables = tables; faults = λ n. none; tick = 0 };
  outbox = [];
}

-- the provider does not answer in time
abbrev request : Request
request = record {
  answer = λ id. CreateAnswer.failed;
  uuid_parse = λ s. none;
  time_parse = λ s. none;
  now = 200;
  answered_at = 300;
}

claim_once_example :
    contacts 5
      (claim request (pos 42) month intent (claim request (pos 42) month intent world).1).1.outbox
    ≡ contacts 5 (claim request (pos 42) month intent world).1.outbox
unfolding claim if_for_sale get_plan_by_id mark_payment_creation_uncertain contact when_answered
claim_once_example =
    claim_once request request (pos 42) (pos 42) month month intent intent world
      (claim request (pos 42) month intent world).1 (λ s u h. cc) refl (λ h. cc) (λ h. omega arith)
      refl
