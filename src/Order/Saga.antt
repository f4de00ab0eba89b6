-- ===== src/Order/Saga.antt =====
-- The placement workflow (src/order/workflow/order-place.workflow.ts) over the services' own handlers: what the
-- payment and the stock activities leave, and what the workflow as a whole leaves.
pub mod Payment
pub mod Stock
pub mod Outcome
