-- ===== src/Product/Create.antt =====
-- src/product: the input of a new product, the tables, and the command handler.
use marketplace_api_v.Common.{
  ℕ, suc, Bool, true, false, not, ◌&&◌, ◌||◌, Option, List, [], ◌∷◌, ◌++◌, map, ltb, leb, ◌==◌, any,
  every, if◌then◌else◌, Text, Result, ok, err, Tx, ◌>>=◌, transactional,
}
use marketplace_api_v.Identity.Forms.{at_most}
use marketplace_api_v.Order.Input.{is_white_space}
use marketplace_api_v.SellerOffer.Store.{integer_limit}
use marketplace_api_v.User.Store.{Language, en, ua}

-- `ProductCreateTranslationInput`; a missing description is none.
pub record TranslationInput : Type 0 where
  pub language : Language
  pub title : Text
  pub description : Option Text

-- `ProductCreateInput`
pub record ProductInput : Type 0 where
  pub category_id : ℕ
  pub brand_id : ℕ
  pub translations : List TranslationInput

abbrev pub same_language : Language → Language → Bool
same_language en en = true
same_language ua ua = true
same_language _ _ = false

-- `@MaxLength(255)` and `@Matches(/\S/)`
abbrev pub is_valid_translation : TranslationInput → Bool
is_valid_translation t = at_most 255 t.title && any (λ c. not (is_white_space c)) t.title

-- `@ArrayUnique` by the language
unfoldable pub has_unique_languages : List TranslationInput → Bool
has_unique_languages [] = true
has_unique_languages (t ∷ ts) =
    not (any (λ (u : TranslationInput). same_language u.language t.language) ts)
    && has_unique_languages ts

abbrev pub is_some : List TranslationInput → Bool
is_some [] = false
is_some (t ∷ ts) = true

-- The decorators of `ProductCreateInput`
unfoldable pub is_valid_product : ProductInput → Bool
is_valid_product i =
    ltb 0 i.category_id
    && ltb 0 i.brand_id
    && (is_some i.translations
        && (has_unique_languages i.translations && every is_valid_translation i.translations))

-- `Product`, without the columns that nothing reads here.
pub record Product : Type 0 where
  pub id : ℕ
  pub public_id : ℕ
  pub category_id : ℕ
  pub brand_id : ℕ

-- `ProductTranslation`
pub record ProductTranslation : Type 0 where
  pub product_id : ℕ
  pub language : Language
  pub title : Text
  pub description : Option Text

-- The tables, with the ids of the categories and brands, which may be soft-deleted.
pub record ProductDb : Type 0 where
  pub categories : List ℕ
  pub brands : List ℕ
  pub products : List Product
  pub translations : List ProductTranslation
  pub next_product_id : ℕ

-- What PostgreSQL throws: a foreign key is violated, or anything else; and what the handler makes of the first.
pub data ProductError : Type 0 where
  foreign_key_violation query_failed not_found : ProductError

abbrev pub Call : Type 0 → Type 0
Call A = Tx ProductDb ProductError A

abbrev pub new_product : ProductInput → ℕ → ℕ → Product
new_product i id public_id = record {
  id = id;
  public_id = public_id;
  category_id = i.category_id;
  brand_id = i.brand_id;
}

-- `ProductRepository.create`, with the columns' range and the foreign keys.
unfoldable pub create_product : ProductInput → ℕ → Call Product
create_product i public_id db =
    if leb integer_limit i.category_id || leb integer_limit i.brand_id
    then (err query_failed, db)
    else if not
        (any (λ c. c == i.category_id) db.categories && any (λ b. b == i.brand_id) db.brands)
    then (err foreign_key_violation, db)
    else (
      ok (new_product i db.next_product_id public_id),
      record db {
        products = db.products ++ new_product i db.next_product_id public_id ∷ [];
        next_product_id = suc db.next_product_id;
      },
    )

abbrev pub to_translation : ℕ → TranslationInput → ProductTranslation
to_translation product t = record {
  product_id = product;
  language = t.language;
  title = t.title;
  description = t.description;
}

-- `btrim("title") <> ''`, and the length of the column.
abbrev pub is_storable : TranslationInput → Bool
is_storable t = any (λ c. not (c == 32)) t.title && at_most 255 t.title

-- `ProductTranslationRepository.create`: one statement, which the unique constraint on `(productId, language)` refuses for
-- two translations of a language; the product is new, so it has no others.
unfoldable pub create_translations : List TranslationInput → Product → Call Product
create_translations ts p db =
    if every is_storable ts && has_unique_languages ts
    then (ok p, record db { translations = db.translations ++ map (to_translation p.id) ts })
    else (err query_failed, db)

-- `create`
unfoldable pub create : ProductInput → ℕ → Call Product
create i public_id =
    transactional (create_product i public_id >>= create_translations i.translations)

abbrev pub not_found_of :
    Result ProductError Product × ProductDb → Result ProductError Product × ProductDb
not_found_of (err foreign_key_violation, db) = (err not_found, db)
not_found_of (r, db) = (r, db)

-- `ProductCreateCommandHandler.execute`
unfoldable pub execute_create : ProductInput → ℕ → Call Product
execute_create i public_id db = not_found_of (create i public_id db)
