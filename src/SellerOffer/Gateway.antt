-- ===== src/SellerOffer/Gateway.antt =====
-- src/seller-offer/gateway/seller-offer.gateway.ts: the checks on a request, the call, and the response.
use marketplace_api_v.Common.{
  ℕ, Bool, true, false, ◌&&◌, Option, none, some, List, [], ◌∷◌, map, every, if◌then◌else◌, ok, err,
  Result, Text, codes,
}
use marketplace_api_v.Messaging.{
  Value, undefined, text, Message, is_text, is_positive_safe, number_of, UuidText, is_uuid, uuid_of,
  Answer, nack, reply,
}
use marketplace_api_v.SellerOffer.Store.{
  Item, Shortage, ShortageReason, StockDb, StockError, rejected, database_error, Call,
}
use marketplace_api_v.SellerOffer.Commands.{execute_reserve, execute_release}

pub record ItemFields : Type 0 where
  pub offer_id : Value
  pub quantity : Value

-- `data.items`: `none` where it is no array.
abbrev pub ReserveRequest : Type 0
ReserveRequest = Message (Option (List ItemFields))

-- `data.orderPublicId`; `undefined` where there is no `data`.
abbrev pub ReleaseRequest : Type 0
ReleaseRequest = Message Value

abbrev pub reserve_type : Text
reserve_type = codes "seller-offer.stock.reserve"

abbrev pub reserve_response_type : Text
reserve_response_type = codes "seller-offer.stock.reserve.response"

abbrev pub release_type : Text
release_type = codes "seller-offer.stock.release"

abbrev pub release_response_type : Text
release_response_type = codes "seller-offer.stock.release.response"

-- `ResponseDataType` of a reservation and of a release
pub data ReserveReply : Type 0 where
  reserved : ReserveReply
  refused : ShortageReason → List Shortage → ReserveReply

pub data ReleaseReply : Type 0 where
  released : ℕ → ReleaseReply

abbrev pub is_nonempty : List ItemFields → Bool
is_nonempty [] = false
is_nonempty (_ ∷ _) = true

abbrev pub is_valid_item : ItemFields → Bool
is_valid_item i = is_positive_safe i.offer_id && is_positive_safe i.quantity

abbrev pub is_valid_items : Option (List ItemFields) → Bool
is_valid_items none = false
is_valid_items (some items) = is_nonempty items && every is_valid_item items

-- The checked `data`.
abbrev pub to_item : ItemFields → Item
to_item i = record { offer_id = number_of i.offer_id; quantity = number_of i.quantity }

abbrev pub items_of : Option (List ItemFields) → List Item
items_of none = []
items_of (some items) = map to_item items

-- `toResponse` and `toReleaseResponse`; the fresh `id` is read by no one.
abbrev pub to_response : {P R : Type 0} → Text → Message P → R → Answer R
to_response type request content = reply (record {
  specversion = text (codes "1.0");
  id = undefined;
  type = text type;
  subject = request.subject;
  correlationid = request.id;
  payload = content;
})

-- The handler's `try … catch`: a rejection is a reply, and any other error is thrown on.
abbrev pub answer_reserve :
    ReserveRequest
    → Result StockError (Unit {0}) × StockDb
    → Result StockError (Answer ReserveReply) × StockDb
answer_reserve m (ok done, db) = (ok (to_response reserve_response_type m reserved), db)
answer_reserve m (err (rejected reason items), db) =
    (ok (to_response reserve_response_type m (refused reason items)), db)
answer_reserve m (err database_error, db) = (err database_error, db)

abbrev pub answer_release :
    ReleaseRequest
    → Result StockError ℕ × StockDb
    → Result StockError (Answer ReleaseReply) × StockDb
answer_release m (ok offers, db) = (ok (to_response release_response_type m (released offers)), db)
answer_release m (err e, db) = (err e, db)

module _ (uuids : UuidText) where
  unfoldable pub is_valid_reserve : ReserveRequest → Bool
  is_valid_reserve m =
      is_text (codes "1.0") m.specversion
      && is_text reserve_type m.type
      && is_uuid uuids m.subject
      && is_valid_items m.payload

  unfoldable pub is_valid_release : ReleaseRequest → Bool
  is_valid_release m =
      is_text (codes "1.0") m.specversion && is_text release_type m.type && is_uuid uuids m.payload

  -- `none` is a message that is `null` or `undefined`.
  unfoldable pub handle_stock_reserve : Option ReserveRequest → Call (Answer ReserveReply)
  handle_stock_reserve none db = (ok nack, db)
  handle_stock_reserve (some m) db =
      if is_valid_reserve m
      then answer_reserve m (execute_reserve (uuid_of uuids m.subject) (items_of m.payload) db)
      else (ok nack, db)

  unfoldable pub handle_stock_release : Option ReleaseRequest → Call (Answer ReleaseReply)
  handle_stock_release none db = (ok nack, db)
  handle_stock_release (some m) db =
      if is_valid_release m
      then answer_release m (execute_release (uuid_of uuids m.payload) db)
      else (ok nack, db)
