-- ===== src/Order/Kept.antt =====
-- The amounts stay right under each call that changes an order
-- (src/order/command-handler/order-place.command-handler.ts, src/order/activity/order-place.activity.ts).
use marketplace_api_v.Order.Store.{Order}
