-- ===== src/Samples.antt =====
-- Concrete databases and messages for the examples.
use marketplace_api_v.Common.{
  ℕ, zero, suc, ◌≡◌, refl, true, false, none, some, List, [], ◌∷◌, arith, ap, Text, codes, length,
}
use marketplace_api_v.Messaging.{UuidText}
use marketplace_api_v.Account.Store.{
  AccountDb, deposit, payment, TransactionStatus, customer_charge,
}
use marketplace_api_v.Account.Ledger as AccountLedger
use marketplace_api_v.SellerOffer.Store.{StockDb, ReservationStatus, Item, Currency}
use marketplace_api_v.SellerOffer.Totals as StockTotals
use marketplace_api_v.Order.Store.{OrderBuyer, Order, OrderDb, OrderRecipient, pending_payment}
use marketplace_api_v.Order.Place.{OrderInput}
use marketplace_api_v.Order.Place as Place

-- A spelling of UUIDs in which a text of n bytes is the UUID n.
abbrev pub tally : ℕ → Text
tally zero = []
tally (suc n) = b'1' ∷ tally n

pub length-tally : (u : ℕ) → length (tally u) ≡ u
length-tally zero = refl
length-tally (suc u) = ap suc (length-tally u)

abbrev pub uuids : UuidText
uuids = record {
  read = λ s. some (length s);
  print = tally;
  is_generated = λ u. true;
  read-print = λ u g. ap some (length-tally u);
}

-- Customer 1 has paid 3.00 of 10.00 for order 5; customer 2 has nothing.
abbrev pub account_db : AccountDb
account_db = record {
  accounts = (1, 700) ∷ (2, 0) ∷ [];
  transactions =
      (record {
        customer_id = 1;
        amount = 1000;
        type = deposit;
        status = TransactionStatus.success;
      })
      ∷ (record {
        customer_id = 1;
        amount = 300;
        type = payment;
        status = TransactionStatus.success;
      })
      ∷ [];
  inbox = (record { consumer = customer_charge; message_id = 5 }) ∷ [];
}

pub account_db-IsValid : AccountLedger.IsValid account_db
account_db-IsValid = record { balanced = λ c. ground arith; bounded = λ c. ground arith }

-- Order 5 holds two pieces of offer 1.
abbrev pub stock_db : StockDb
stock_db = record {
  offers =
      (
        1,
        record {
          price = 150;
          discount_price = none;
          currency = Currency.uah;
          on_hand = 10;
          reserved = 2;
          deleted = false;
        },
      )
      ∷ (
        2,
        record {
          price = 400;
          discount_price = some 350;
          currency = Currency.uah;
          on_hand = 4;
          reserved = 0;
          deleted = false;
        },
      )
      ∷ [];
  reservations =
      (record { order_id = 5; offer_id = 1; quantity = 2; status = ReservationStatus.reserved })
      ∷ [];
}

pub stock_db-IsValid : StockTotals.IsValid stock_db
stock_db-IsValid = record {
  keys = (refl, (refl, tt));
  unique = λ order i. ground arith;
  held = λ i o e. ground arith;
  within = λ i o e. ground arith;
}

-- One piece of offer 2 and two of offer 1.
abbrev pub two_items : List Item
two_items = (record { offer_id = 2; quantity = 1 }) ∷ (record { offer_id = 1; quantity = 2 }) ∷ []

-- The order 3, with the public id 7: buyer 1 owes 6.50.
abbrev pub pending_order : Order
pending_order = record {
  id = 3;
  public_id = 7;
  user_id = 1;
  recipient_id = 1;
  idempotency_key = some 9;
  owner_identity = some 4;
  status = pending_payment;
  total_amount = 650;
  discount_amount = 50;
  currency = Currency.uah;
  deleted = false;
}

abbrev pub recipient : OrderRecipient
recipient = record {
  full_name = codes "Olena";
  phone = record {
    country_code = codes "UA";
    raw_number = codes "0501234567";
    full_number = codes "+380501234567";
    national_number = codes "501234567";
  };
  address = record { address_line = codes "Main 1"; city = codes "Kyiv"; building = none };
}

abbrev pub order_db : OrderDb
order_db = record {
  orders = (3, pending_order) ∷ [];
  lines =
      (record {
        order_id = 3;
        offer_id = 2;
        quantity = 1;
        unit_price = 400;
        unit_discount_price = some 350;
      })
      ∷ (record {
        order_id = 3;
        offer_id = 1;
        quantity = 2;
        unit_price = 150;
        unit_discount_price = none;
      })
      ∷ [];
  recipients = (1, recipient) ∷ [];
  buyers = (record { identity_public_id = 4; user_id = 1 }) ∷ [];
  outbox = [];
  workflow_outbox = [];
  next_order_id = 4;
  next_recipient_id = 2;
}

abbrev pub order_input : OrderInput
order_input = record { recipient = recipient; items = two_items; currency = Currency.uah }

abbrev pub fresh : Place.Fresh
fresh = record { public_id = 8; event_id = 11; now = 100 }

-- The buyer, and the items as they are priced: 3.50 once and 1.50 twice.
abbrev pub buyer : OrderBuyer
buyer = record { identity_public_id = 4; user_id = 1 }

abbrev pub priced_items : List Place.PricedOrderLine
priced_items =
    (record {
      offer_id = 2;
      quantity = 1;
      unit_price = 400;
      unit_discount_price = some 350;
      amount = 350;
      discount = 50;
    })
    ∷ (record {
      offer_id = 1;
      quantity = 2;
      unit_price = 150;
      unit_discount_price = none;
      amount = 300;
      discount = 0;
    })
    ∷ []
