-- ===== src/Order/Messages.antt =====
-- src/order/service/order-place-message.service.ts: the requests that order sends to account and to
-- seller-offer, and that their gateways accept them and read back what was sent.
use marketplace_api_v.Common.{ℕ, some, List, map, Text, codes}
use marketplace_api_v.Messaging.{undefined, number, text, UuidText}
use marketplace_api_v.Account.Gateway.{Request, charge_type, refund_type}
use marketplace_api_v.SellerOffer.Store.{Item}
use marketplace_api_v.SellerOffer.Gateway.{
  ItemFields, ReserveRequest, ReleaseRequest, reserve_type, release_type,
}

abbrev pub safe_limit : ℕ
safe_limit = 9_007_199_254_740_991

abbrev pub item_fields : Item → ItemFields
item_fields i = record { offer_id = number i.offer_id; quantity = number i.quantity }

module _ (uuids : UuidText) where
  unfoldable pub to_account_customer_charge_request : ℕ → ℕ → Text → Request
  to_account_customer_charge_request id customer amount = record {
    specversion = text (codes "1.0");
    id = text (uuids.print id);
    type = text charge_type;
    subject = text (uuids.print id);
    correlationid = text (uuids.print id);
    payload =
        some
          (record { customer_id = number customer; amount = text amount; charge_id = undefined });
  }

  unfoldable pub to_account_customer_refund_request : ℕ → ℕ → Text → Request
  to_account_customer_refund_request order customer amount = record {
    specversion = text (codes "1.0");
    id = text (uuids.print order);
    type = text refund_type;
    subject = text (uuids.print order);
    correlationid = text (uuids.print order);
    payload = some (record {
      customer_id = number customer;
      amount = text amount;
      charge_id = text (uuids.print order);
    });
  }

  unfoldable pub to_stock_reserve_request : ℕ → List Item → ReserveRequest
  to_stock_reserve_request id items = record {
    specversion = text (codes "1.0");
    id = text (uuids.print id);
    type = text reserve_type;
    subject = text (uuids.print id);
    correlationid = text (uuids.print id);
    payload = some (map item_fields items);
  }

  unfoldable pub to_stock_release_request : ℕ → ReleaseRequest
  to_stock_release_request order = record {
    specversion = text (codes "1.0");
    id = text (uuids.print order);
    type = text release_type;
    subject = text (uuids.print order);
    correlationid = text (uuids.print order);
    payload = text (uuids.print order);
  }
