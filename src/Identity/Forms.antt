-- ===== src/Identity/Forms.antt =====
-- The texts that identify a person: the checks of src/identity/entity/identity.entity.ts and the decorators of src/identity/input. What
-- class-validator's `isEmail` accepts is a parameter. White space is that of ASCII.
use marketplace_api_v.Common.{
  ℕ, Bool, true, false, not, ◌&&◌, ◌||◌, Option, none, some, [], ◌∷◌, leb, ◌==◌, if◌then◌else◌,
  every, length, Text,
}
use marketplace_api_v.Money.Text.{is_digit}
use marketplace_api_v.Identity.Store.{Country, NewIdentity}

-- `/^\+[1-9][0-9]{7,14}$/`
unfoldable pub is_e164 : Text → Bool
is_e164 [] = false
is_e164 (p ∷ []) = false
is_e164 (p ∷ d ∷ rest) =
    (p == b'+')
    && leb b'1' d
    && leb d b'9'
    && every is_digit rest
    && leb 7 (length rest)
    && leb (length rest) 14

-- `/^[0-9]{4,15}$/`
abbrev pub is_national : Text → Bool
is_national t = every is_digit t && leb 4 (length t) && leb (length t) 15

abbrev pub is_space : ℕ → Bool
is_space c = (c == 32) || (leb 9 c && leb c 13)

-- `[^@\s]`
abbrev pub is_plain : ℕ → Bool
is_plain c = not (c == b'@') && not (is_space c)

abbrev pub dot_before_end : Text → Bool
dot_before_end [] = false
dot_before_end (c ∷ []) = false
dot_before_end (c ∷ d ∷ t) = (c == b'.') || dot_before_end (d ∷ t)

-- `[^@\s]+\.[^@\s]+$`
abbrev pub is_domain : Text → Bool
is_domain [] = false
is_domain (c ∷ t) = every is_plain (c ∷ t) && dot_before_end t

-- From a place in the local part on; whether the part is not empty so far.
unfoldable pub is_address : Bool → Text → Bool
is_address seen [] = false
is_address seen (c ∷ t) =
    let rest = is_address true t in if c == b'@' then seen && is_domain t else is_plain c && rest

-- `^[^@\s]+@[^@\s]+\.[^@\s]+$`
abbrev pub has_email_format : Text → Bool
has_email_format t = is_address false t

-- `input.login.startsWith('+')`
abbrev pub starts_with_plus : Text → Bool
starts_with_plus [] = false
starts_with_plus (c ∷ t) = c == b'+'

abbrev pub holds_for : (Text → Bool) → Option Text → Bool
holds_for p none = true
holds_for p (some t) = p t

abbrev pub is_present : Option Text → Bool
is_present none = false
is_present (some t) = true

abbrev pub at_most : ℕ → Text → Bool
at_most n t = leb (length t) n

-- The check constraints of `Identity`, and the lengths of its columns.
unfoldable pub meets_checks : NewIdentity → Bool
meets_checks n =
    (is_present n.email || is_present n.login_phone.full_number)
    && holds_for is_e164 n.login_phone.full_number
    && holds_for is_national n.login_phone.national_number
    && holds_for has_email_format n.email
    && holds_for (at_most 32) n.login_phone.raw_number
    && holds_for (at_most 255) n.password_hash

-- `IdentityRegisterPhoneInput`
pub record RegisterPhone : Type 0 where
  pub country_code : Country
  pub raw_number : Text
  pub full_number : Text
  pub national_number : Text

-- `IdentityRegisterInput`
pub record RegisterInput : Type 0 where
  pub email : Option Text
  pub phone : Option RegisterPhone
  pub password : Text

-- `IdentityLoginInput`
pub record LoginInput : Type 0 where
  pub login : Text
  pub password : Text

-- The decorators of `IdentityRegisterPhoneInput`; the country is one of the enum by its type.
abbrev pub is_valid_phone : RegisterPhone → Bool
is_valid_phone p =
    at_most 32 p.raw_number
    && (at_most 16 p.full_number && is_e164 p.full_number)
    && (at_most 15 p.national_number && is_national p.national_number)

abbrev pub is_valid_email : (Text → Bool) → Option Text → Option RegisterPhone → Bool
is_valid_email is_email (some e) phone = is_email e && at_most 254 e
is_valid_email is_email none (some phone) = true
is_valid_email is_email none none = false

abbrev pub is_valid_optional_phone : Option RegisterPhone → Bool
is_valid_optional_phone none = true
is_valid_optional_phone (some p) = is_valid_phone p

-- The decorators of `IdentityRegisterInput`
unfoldable pub is_valid_register : (Text → Bool) → RegisterInput → Bool
is_valid_register is_email i =
    is_valid_email is_email i.email i.phone
    && is_valid_optional_phone i.phone
    && (leb 8 (length i.password) && at_most 128 i.password)

-- The decorators of `IdentityLoginInput`
abbrev pub is_valid_login : LoginInput → Bool
is_valid_login i =
    (leb 1 (length i.login) && at_most 254 i.login)
    && (leb 1 (length i.password) && at_most 128 i.password)
