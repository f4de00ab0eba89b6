-- ===== src/Product/Created.antt =====
-- A valid product is created with all of its translations, or nothing is (src/product/command-handler).
use marketplace_api_v.Common.{ℕ, suc, Bool, ◌&&◌, [], ◌∷◌, ◌++◌, map, ◌==◌, any}
use marketplace_api_v.Product.Create.{ProductInput, ProductDb, new_product, to_translation}

abbrev pub exists : ProductInput → ProductDb → Bool
exists i db = any (λ c. c == i.category_id) db.categories && any (λ b. b == i.brand_id) db.brands

-- The tables with the new product and its translations.
abbrev pub with_product : ProductInput → ℕ → ProductDb → ProductDb
with_product i public_id db = record {
  categories = db.categories;
  brands = db.brands;
  products = db.products ++ new_product i db.next_product_id public_id ∷ [];
  translations = db.translations ++ map (to_translation db.next_product_id) i.translations;
  next_product_id = suc db.next_product_id;
}
