-- ===== src/Product/Tests.antt =====
-- An example of a new product.
use marketplace_api_v.Common.{none, [], ◌∷◌, codes}
use marketplace_api_v.User.Store.{en, ua}
use marketplace_api_v.Product.Create.{ProductInput, ProductDb}

abbrev lamp : ProductInput
lamp = record {
  category_id = 3;
  brand_id = 4;
  translations =
      (record { language = en; title = codes "Lamp"; description = none })
      ∷ (record { language = ua; title = codes "Lampa"; description = none })
      ∷ [];
}

abbrev shop : ProductDb
shop = record {
  categories = 3 ∷ [];
  brands = 4 ∷ [];
  products = [];
  translations = [];
  next_product_id = 1;
}
