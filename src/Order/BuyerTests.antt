-- ===== src/Order/BuyerTests.antt =====
-- Examples of the registration of buyers (src/order/gateway/order-user-events.gateway.ts).
use marketplace_api_v.Common.{◌≡◌, refl, some, codes}
use marketplace_api_v.Messaging.{text, number}
use marketplace_api_v.UserCreated.{UserCreated, user_created_type}
use marketplace_api_v.Order.Place.{find_buyer}
use marketplace_api_v.Order.Buyers.{handle_user_created}
use marketplace_api_v.Order.Registered.{handle_user_created-find_buyer}
use marketplace_api_v.Samples.{uuids, tally, order_db}

-- The user 2 of the identity 5.
abbrev event : UserCreated
event = record {
  specversion = text (codes "1.0");
  id = text (tally 12);
  type = text user_created_type;
  subject = text (tally 6);
  correlationid = text (tally 6);
  payload = some (record {
    user_id = number 2;
    user_public_id = text (tally 6);
    identity_public_id = text (tally 5);
  });
}

known : find_buyer 4 order_db.buyers ≡ some (record { identity_public_id = 4; user_id = 1 })
unfolding find_buyer
known = refl

handle_user_created-find_buyer_example :
    find_buyer 4 (handle_user_created uuids (some event) order_db).1.buyers
    ≡ some (record { identity_public_id = 4; user_id = 1 })
handle_user_created-find_buyer_example =
    handle_user_created-find_buyer uuids (some event) 4
      (record { identity_public_id = 4; user_id = 1 }) order_db known
