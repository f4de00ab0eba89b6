-- ===== src/Order/Input.antt =====
-- src/order/input/order-create.input.ts: the decorators of the inputs of an order. A number of the input is a natural one here,
-- as `@IsInt` and `@IsPositive` ask for.
use marketplace_api_v.Common.{
  ◌||◌, ℕ, Bool, true, false, not, ◌&&◌, Option, none, some, List, [], ◌∷◌, ltb, leb, any, every,
  ◌==◌, Text, codes, text_eq,
}
use marketplace_api_v.Identity.Forms.{is_e164, is_national, is_space, at_most}
use marketplace_api_v.SellerOffer.Store.{Item}
use marketplace_api_v.Order.Store.{OrderRecipient, RecipientPhone, RecipientAddress}
use marketplace_api_v.Order.Place.{OrderInput}

-- `\s` of JavaScript
abbrev pub is_white_space : ℕ → Bool
is_white_space c =
    is_space c
    || (c == 160)
    || (c == 5760)
    || (leb 8192 c && leb c 8202)
    || (c == 8232)
    || (c == 8233)
    || (c == 8239)
    || (c == 8287)
    || (c == 12288)
    || (c == 65279)

-- `@IsEnum(CountryCodeEnum)`
unfoldable pub is_country : Text → Bool
is_country t = any (text_eq t) (codes "UA" ∷ codes "US" ∷ codes "PL" ∷ codes "DE" ∷ codes "GB" ∷ [])

-- `OrderCreateRecipientPhoneInput`
abbrev pub is_valid_recipient_phone : RecipientPhone → Bool
is_valid_recipient_phone p =
    is_country p.country_code
    && at_most 32 p.raw_number
    && (at_most 16 p.full_number && is_e164 p.full_number)
    && (at_most 15 p.national_number && is_national p.national_number)

abbrev pub is_valid_building : Option Text → Bool
is_valid_building none = true
is_valid_building (some t) = at_most 32 t

-- `OrderCreateRecipientAddressInput`
abbrev pub is_valid_address : RecipientAddress → Bool
is_valid_address a =
    at_most 255 a.address_line && at_most 100 a.city && is_valid_building a.building

-- `OrderCreateRecipientInput`; `/\S/` wants a character that is no white space.
abbrev pub is_valid_recipient : OrderRecipient → Bool
is_valid_recipient r =
    (at_most 201 r.full_name && any (λ c. not (is_white_space c)) r.full_name)
    && is_valid_recipient_phone r.phone
    && is_valid_address r.address

-- `OrderCreateItemInput`
abbrev pub is_valid_item_input : Item → Bool
is_valid_item_input i = ltb 0 i.offer_id && leb 1 i.quantity

abbrev pub is_nonempty : List Item → Bool
is_nonempty [] = false
is_nonempty (i ∷ is) = true

-- `OrderCreateInput`; the currency is one of the enum by its type.
unfoldable pub is_valid_order_input : OrderInput → Bool
is_valid_order_input i =
    is_valid_recipient i.recipient && (is_nonempty i.items && every is_valid_item_input i.items)
