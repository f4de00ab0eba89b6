-- ===== src/Access/Examples.antt =====
-- Data for the examples of src/generic/auth: one access token, with the claims of a buyer.
use marketplace_api_v.Common.{
  ℕ, ◌+◌, ◌<◌, ◌≡◌, true, false, Option, none, some, arith, ltb, if◌then◌else◌, Text, codes,
}
use marketplace_api_v.Messaging.{text, undefined}
use marketplace_api_v.Identity.Commands.{clock_tolerance}
use marketplace_api_v.Access.Tokens.{Payload, Jwt, Request}

-- The identity 4, in the family 9, until the second 900.
abbrev pub payload : Payload
payload = record {
  sub = text (codes "iiii");
  jti = text (codes "jjj");
  sid = text (codes "fffffffff");
  role = text (codes "user");
  email = text (codes "a@b.co");
  phone_number = undefined;
  exp = 900;
}

-- Every token has this payload while it is in time.
abbrev pub verify_in_time : Text → ℕ → Option Payload
verify_in_time token now = if ltb now (900 + clock_tolerance) then some payload else none

pub verified-in_time :
    (token : Text) (now : ℕ) (p : Payload)
    → verify_in_time token now ≡ some p
    → now < p.exp + clock_tolerance
verified-in_time token now p h = ground arith

abbrev pub jwt : Jwt
jwt = record { verify = verify_in_time; in_time = verified-in_time }

abbrev pub request : Request
request = record { is_http = true; is_public = false; authorization = some (codes "Bearer abc") }
