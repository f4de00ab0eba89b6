-- ===== src/Order/Store.antt =====
-- src/order/entity and repository: the rows of the order database and the queries on them. Amounts are in
-- cents.
use marketplace_api_v.Common.{
  ℕ, Bool, true, false, Option, none, some, List, if◌then◌else◌, Table, lookup, put, ok, err, Tx,
  Text,
}
use marketplace_api_v.SellerOffer.Store.{Currency, Item}
use marketplace_api_v.Outbox.Store.{Row}

pub data OrderStatus : Type 0 where
  created pending_payment failed_payment paid confirmed preparing shipped delivered completed
        canceled refunded :
      OrderStatus

pub record OrderLine : Type 0 where
  pub order_id : ℕ
  pub offer_id : ℕ
  pub quantity : ℕ
  pub unit_price : ℕ
  pub unit_discount_price : Option ℕ

pub record Order : Type 0 where
  pub id : ℕ
  pub public_id : ℕ
  pub user_id : ℕ
  pub recipient_id : ℕ
  pub idempotency_key : Option ℕ
  pub owner_identity : Option ℕ
  pub status : OrderStatus
  pub total_amount : ℕ
  pub discount_amount : ℕ
  pub currency : Currency
  pub deleted : Bool

-- `OrderFailureInterface`
pub data FailureReason : Type 0 where
  insufficient_stock payment_rejected error : FailureReason

pub record OrderFailure : Type 0 where
  pub status : OrderStatus
  pub reason : FailureReason

-- The payload of an outbox row, by its `type`.
pub data OrderEvent : Type 0 where
  order_created : Order → OrderEvent
  order_paid : Order → List OrderLine → OrderEvent
  order_failed : Order → OrderFailure → OrderEvent

-- `OrderPlaceWorkflowInputInterface`, the `input` of a workflow outbox row
pub record WorkflowInput : Type 0 where
  pub order_id : ℕ
  pub order_public_id : ℕ
  pub user_id : ℕ
  pub total_amount : Text
  pub items : List Item

-- `OrderBuyer`: the user that an identity stands for.
pub record OrderBuyer : Type 0 where
  pub identity_public_id : ℕ
  pub user_id : ℕ

-- `OrderRecipient` with its embedded `RecipientPhone` and `RecipientAddress`
pub record RecipientPhone : Type 0 where
  pub country_code : Text
  pub raw_number : Text
  pub full_number : Text
  pub national_number : Text

pub record RecipientAddress : Type 0 where
  pub address_line : Text
  pub city : Text
  pub building : Option Text

pub record OrderRecipient : Type 0 where
  pub full_name : Text
  pub phone : RecipientPhone
  pub address : RecipientAddress

-- The tables, with the next values of the two identity columns.
pub record OrderDb : Type 0 where
  pub orders : Table Order
  pub lines : List OrderLine
  pub recipients : Table OrderRecipient
  pub buyers : List OrderBuyer
  pub outbox : List (Row OrderEvent)
  pub workflow_outbox : List (Row WorkflowInput)
  pub next_order_id : ℕ
  pub next_recipient_id : ℕ

pub data OrderError : Type 0 where
  not_found : OrderError
  buyer_not_ready : OrderError
  offer_missing : ℕ → OrderError
  database_error : OrderError

abbrev pub Call : Type 0 → Type 0
Call A = Tx OrderDb OrderError A

abbrev pub is_pending : OrderStatus → Bool
is_pending pending_payment = true
is_pending _ = false

-- `findByIdOrFail`: a soft-deleted order is not found.
unfoldable pub find_by_id_or_fail : ℕ → Call Order
find_by_id_or_fail id db = elim (lookup id db.orders) [
  | none ↦ (err not_found, db)
  | some o ↦ if o.deleted then (err not_found, db) else (ok o, db)
]

abbrev pub with_status : OrderStatus → Order → Order
with_status s o = record o { status = s }

abbrev pub written : ℕ → OrderStatus → OrderDb → OrderDb
written id s db = elim (lookup id db.orders) [
  | none ↦ db
  | some o ↦ record db { orders = put id (with_status s o) db.orders }
]

-- `updateStatusById`
unfoldable pub update_status_by_id : ℕ → OrderStatus → Call Order
unfolding find_by_id_or_fail
update_status_by_id id s db = find_by_id_or_fail id (written id s db)

-- `updatePendingStatusById`: the order with its new status, if it was pending.
unfoldable pub update_pending_status_by_id : ℕ → OrderStatus → Call (Option Order)
update_pending_status_by_id id s db = elim (lookup id db.orders) [
  | none ↦ (ok none, db)
  | some o ↦
      if is_pending o.status
      then if o.deleted
        then (err not_found, record db { orders = put id (with_status s o) db.orders })
        else (
          ok (some (with_status s o)),
          record db { orders = put id (with_status s o) db.orders },
        )
      else (ok none, db)
]
