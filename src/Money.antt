-- ===== src/Money.antt =====
-- Decimal amounts as text, as the account gateway checks them and `toFixed(2)` writes them
-- (src/account/gateway/account.gateway.ts, src/account/command-handler).
pub mod Text
pub mod Digits
pub mod Fixed
mod Tests
