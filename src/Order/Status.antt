-- ===== src/Order/Status.antt =====
-- `markPaid` and `markFailed` (src/order/activity/order-place.activity.ts): an order leaves `pending_payment`
-- once, with one event. The eviction of the cached order concerns Redis and is not modelled.
use marketplace_api_v.Common.{
  ℕ, ◌≡◌, true, false, Option, none, some, List, [], ◌∷◌, ◌++◌, arith, ◌==◌, keep, if◌then◌else◌,
  lookup, put, Bool-cases, inl, inr, ok, pure, ◌>>=◌, transactional,
}
use marketplace_api_v.Outbox.Store.{new_row, create}
use marketplace_api_v.Order.Store.{
  Order, OrderLine, OrderDb, OrderStatus, paid, OrderFailure, OrderEvent, order_paid, order_failed,
  Call, is_pending, with_status, update_pending_status_by_id,
}

-- The lines of an order, its `lines` relation.
abbrev pub lines_of : ℕ → List OrderLine → List OrderLine
lines_of id = keep (λ (l : OrderLine). l.order_id == id)

-- `outbox.create` of an event, under a fresh id and the transaction's time.
abbrev pub publish : ℕ → ℕ → OrderEvent → Call (Unit {0})
publish fresh now event db =
    (ok tt, record db { outbox = create (new_row fresh now event) db.outbox })

-- `outbox.create(this.messages.toOrderPaidOutbox(paid))`, if the row has changed.
unfoldable pub announce_paid : ℕ → ℕ → Option Order → Call (Unit {0})
announce_paid fresh now none = pure tt
announce_paid fresh now (some o) =
    λ db. publish fresh now (order_paid o (lines_of o.id db.lines)) db

unfoldable pub announce_failed : ℕ → ℕ → OrderFailure → Option Order → Call (Unit {0})
announce_failed fresh now failure none = pure tt
announce_failed fresh now failure (some o) = publish fresh now (order_failed o failure)

unfoldable pub mark_paid : ℕ → ℕ → ℕ → Call (Unit {0})
unfolding announce_paid
mark_paid fresh now id =
    transactional (update_pending_status_by_id id paid >>= announce_paid fresh now)

unfoldable pub mark_failed : ℕ → ℕ → ℕ → OrderFailure → Call (Unit {0})
unfolding announce_failed
mark_failed fresh now id failure =
    transactional
      (update_pending_status_by_id id failure.status >>= announce_failed fresh now failure)

-- A pending order that is not deleted moves to its final status, and one event that says so is written.
module _ (fresh now id : ℕ) (o : Order) (db : OrderDb) where
  update_pending :
      (s : OrderStatus)
      → lookup id db.orders ≡ some o
      → is_pending o.status ≡ true
      → o.deleted ≡ false
      → update_pending_status_by_id id s db
        ≡ (ok (some (with_status s o)), record db { orders = put id (with_status s o) db.orders })
  unfolding update_pending_status_by_id
  update_pending s e p d = ground arith

  update_settled :
      (s : OrderStatus)
      → lookup id db.orders ≡ some o
      → is_pending o.status ≡ false
      → update_pending_status_by_id id s db ≡ (ok none, db)
  unfolding update_pending_status_by_id
  update_settled s e p = ground arith

  pub mark_paid_pending :
      lookup id db.orders ≡ some o
      → is_pending o.status ≡ true
      → o.deleted ≡ false
      → mark_paid fresh now id db ≡ (
        ok tt,
        record db {
          orders = put id (with_status paid o) db.orders;
          outbox =
              db.outbox
              ++ new_row fresh now (order_paid (with_status paid o) (lines_of o.id db.lines)) ∷ [];
        },
      )
  unfolding mark_paid
  mark_paid_pending e p d = rw (update_pending paid e p d)

  pub mark_failed_pending :
      (failure : OrderFailure)
      → lookup id db.orders ≡ some o
      → is_pending o.status ≡ true
      → o.deleted ≡ false
      → mark_failed fresh now id failure db ≡ (
        ok tt,
        record db {
          orders = put id (with_status failure.status o) db.orders;
          outbox =
              db.outbox
              ++ new_row fresh now (order_failed (with_status failure.status o) failure) ∷ [];
        },
      )
  unfolding mark_failed
  mark_failed_pending failure e p d = rw (update_pending failure.status e p d)

  -- An order that has left `pending_payment` is never moved again, and no second event is written.
  pub settled_stays :
      (failure : OrderFailure)
      → lookup id db.orders ≡ some o
      → is_pending o.status ≡ false
      → (mark_paid fresh now id db ≡ (ok tt, db))
        × (mark_failed fresh now id failure db ≡ (ok tt, db))
  unfolding mark_paid mark_failed
  settled_stays failure e p = (rw (update_settled paid e p), rw (update_settled failure.status e p))

  -- A paid and a failed notice, on an order that is stored and not deleted: a pending order takes the new status and
  -- exactly one event is written, which carries the order as it now is, and for a paid one its lines. An order that
  -- has left `pending_payment` is not moved again, and nothing is written.
  pub mark_cases :
      (failure : OrderFailure)
      → lookup id db.orders ≡ some o
      → o.deleted ≡ false
      → (mark_paid fresh now id db ≡ (
        ok tt,
        if is_pending o.status
            then record db {
              orders = put id (with_status paid o) db.orders;
              outbox =
                  db.outbox
                  ++ new_row fresh now (order_paid (with_status paid o) (lines_of o.id db.lines))
                    ∷ [];
            }
            else db,
      ))
        × (mark_failed fresh now id failure db ≡ (
          ok tt,
          if is_pending o.status
              then record db {
                orders = put id (with_status failure.status o) db.orders;
                outbox =
                    db.outbox
                    ++ new_row fresh now (order_failed (with_status failure.status o) failure) ∷ [];
              }
              else db,
        ))
  mark_cases failure e d = elim (Bool-cases (is_pending o.status)) [
    | inl p ↦ rw p (mark_paid_pending e p d, mark_failed_pending failure e p d)
    | inr p ↦ rw p (settled_stays failure e p)
  ]
