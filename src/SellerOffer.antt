-- ===== src/SellerOffer.antt =====
-- The seller-offer service (src/seller-offer): offers with their stock, reservations of orders, and the
-- gateway that answers reserve and release requests.
pub mod Store
pub mod Commands
pub mod Gateway
pub mod Totals
pub mod Releasing
pub mod Reserving
pub mod Cycle
pub mod Success
pub mod Again
mod Tests
