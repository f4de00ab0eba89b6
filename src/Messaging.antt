-- ===== src/Messaging.antt =====
-- Messages between services (packages/messaging-contracts/src): the CloudEvents envelope as parsed JSON,
-- and the checks that the gateways make on its fields.
use marketplace_api_v.Common.{
  ℕ, ◌≡◌, Bool, true, false, ◌&&◌, Option, none, some, ltb, leb, Text, text_eq,
}
use marketplace_api_v.Money.Text.{is_amount, cents_of}

-- A field of a parsed message. A number is whole and not negative, or among the `other` values.
pub data Value : Type 0 where
  undefined null other : Value
  number : ℕ → Value
  text : Text → Value

-- `CloudEventInterface`, without the fields that no receiver reads (`source`, `time`, `datacontenttype`).
pub record Message (P : Type 0) : Type 0 where
  pub specversion : Value
  pub id : Value
  pub type : Value
  pub subject : Value
  pub correlationid : Value
  pub payload : P

abbrev pub is_text : Text → Value → Bool
is_text s (text t) = text_eq t s
is_text s _ = false

-- `Number.isSafeInteger(v) && v > 0`
abbrev pub is_positive_safe : Value → Bool
is_positive_safe (number n) = leb n 9_007_199_254_740_991 && ltb 0 n
is_positive_safe _ = false

-- `typeof v === 'string' && /^\d{1,10}(\.\d{1,2})?$/.test(v) && Number(v) > 0`
abbrev pub is_positive_amount : Value → Bool
is_positive_amount (text s) = is_amount s && ltb 0 (cents_of s)
is_positive_amount _ = false

-- What a checked field holds; the defaults stand where the check has failed.
abbrev pub number_of : Value → ℕ
number_of (number n) = n
number_of _ = 0

abbrev pub amount_of : Value → ℕ
amount_of (text s) = cents_of s
amount_of _ = 0

-- class-validator's `isUUID` with PostgreSQL's reading of an accepted text, and PostgreSQL's canonical
-- text of a UUID. The text of a UUID that `gen_random_uuid()` generates is accepted and read back.
pub record UuidText : Type 0 where
  pub read : Text → Option ℕ
  pub print : ℕ → Text
  pub is_generated : ℕ → Bool
  pub read-print : (u : ℕ) → is_generated u ≡ true → read (print u) ≡ some u

abbrev pub is_read : Option ℕ → Bool
is_read none = false
is_read (some u) = true

abbrev pub uuid_or_zero : Option ℕ → ℕ
uuid_or_zero none = 0
uuid_or_zero (some u) = u

module _ (uuids : UuidText) where
  abbrev pub read_uuid : Value → Option ℕ
  read_uuid (text s) = uuids.read s
  read_uuid _ = none

  abbrev pub is_uuid : Value → Bool
  is_uuid v = is_read (read_uuid v)

  abbrev pub uuid_of : Value → ℕ
  uuid_of v = uuid_or_zero (read_uuid v)

-- A handler's reply: a response, or `Nack(false)`, which dead-letters the message.
pub data Answer (R : Type 0) : Type 0 where
  nack : Answer R
  reply : Message R → Answer R
