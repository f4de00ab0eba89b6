-- ===== src/Account/Tests.antt =====
-- Examples of the account service (src/account).
use marketplace_api_v.Common.{◌≡◌, refl, some, [], ◌∷◌, arith, codes}
use marketplace_api_v.Messaging.{text, number}
use marketplace_api_v.Account.Store.{balance_of}
use marketplace_api_v.Account.Gateway.{
  Request, handle_customer_charge, handle_customer_refund, charge_type,
}
use marketplace_api_v.Account.Delivery.{charge, refund, deliver_all, deliver_all-balance}
use marketplace_api_v.Account.Ledger.{IsValid}
use marketplace_api_v.Account.Handlers.{handlers-IsValid}
use marketplace_api_v.UserCreated.{UserCreated, user_created_type}
use marketplace_api_v.Account.UserEvents.{handle_user_created, handle_user_created-balance}
use marketplace_api_v.Samples.{uuids, tally, account_db, account_db-IsValid}

-- Order 7 charges customer 1 twice, is refunded, and is charged again.
deliver_all-balance_example :
    balance_of 1 (deliver_all 7 1 650 (charge ∷ charge ∷ refund ∷ charge ∷ []) account_db)
    ≡ some 700
deliver_all-balance_example =
    deliver_all-balance 7 1 650 (charge ∷ charge ∷ refund ∷ charge ∷ []) 700 account_db
      (omega arith) refl refl refl

-- A charge of 6.50 to customer 1, under the id 7.
abbrev charge_message : Request
charge_message = record {
  specversion = text (codes "1.0");
  id = text (tally 7);
  type = text charge_type;
  subject = text (tally 7);
  correlationid = text (tally 7);
  payload =
      some (record {
        customer_id = number 1;
        amount = text (codes "6.50");
        charge_id = text (tally 7);
      });
}

handlers-IsValid_example :
    IsValid (handle_customer_charge uuids (some charge_message) account_db).1
    × IsValid (handle_customer_refund uuids (some charge_message) account_db).1
handlers-IsValid_example =
    handlers-IsValid uuids (some charge_message) account_db account_db-IsValid

-- The user 1, who has an account, is announced again.
abbrev user_event : UserCreated
user_event = record {
  specversion = text (codes "1.0");
  id = text (tally 12);
  type = text user_created_type;
  subject = text (tally 6);
  correlationid = text (tally 6);
  payload = some (record {
    user_id = number 1;
    user_public_id = text (tally 6);
    identity_public_id = text (tally 4);
  });
}

handle_user_created-balance_example :
    (balance_of 1 (handle_user_created uuids (some user_event) account_db).1 ≡ some 700)
    × IsValid (handle_user_created uuids (some user_event) account_db).1
handle_user_created-balance_example =
    handle_user_created-balance uuids (some user_event) 1 700 account_db account_db-IsValid refl
