-- ===== src/Product.antt =====
-- The product service (src/product): new products with their translations.
pub mod Create
pub mod Created
mod Tests
