-- ===== src/Access/Tokens.antt =====
-- src/generic/auth/access-token-verifier.service.ts, access-token-denylist.service.ts, access-token.guard.ts and
-- schema/access-token-payload.schema.ts.
use marketplace_api_v.Common.{
  ℕ, ◌+◌, ◌/◌, ◌<◌, ◌≡◌, Bool, true, false, not, ◌&&◌, Option, none, some, List, [], ◌∷◌, ◌++◌, ltb,
  ◌==◌, if◌then◌else◌, any, Text, codes, text_eq, Result, ok, err,
}
use marketplace_api_v.Messaging.{Value, undefined, text, UuidText, is_uuid, uuid_of}
use marketplace_api_v.Identity.Store.{
  Role, owner, seller, admin, user, IdentityError, unauthorized, unavailable,
}
use marketplace_api_v.Identity.Commands.{Setting, Denial, clock_tolerance}

-- A verified payload of a JWT; its times are in seconds.
pub record Payload : Type 0 where
  pub sub : Value
  pub jti : Value
  pub sid : Value
  pub role : Value
  pub email : Value
  pub phone_number : Value
  pub exp : ℕ

-- `jwtVerify` of jose with the options of the verifier: the payload of a token that is accepted at a time in seconds. It does not accept
-- a token whose `exp` is as far back as the clock tolerance.
pub record Jwt : Type 0 where
  pub verify : Text → ℕ → Option Payload
  pub in_time :
      (token : Text) (now : ℕ) (p : Payload)
      → verify token now ≡ some p
      → now < p.exp + clock_tolerance

-- `AccessTokenClaimsInterface`
pub record AccessClaims : Type 0 where
  pub identity_public_id : ℕ
  pub token_id : ℕ
  pub family_id : ℕ
  pub role : Role
  pub email : Option Text
  pub phone_number : Option Text

-- `z.enum(RoleEnum)`
unfoldable pub read_role_text : Text → Option Role
read_role_text t =
    if text_eq t (codes "owner")
    then some owner
    else if text_eq t (codes "seller")
    then some seller
    else if text_eq t (codes "admin")
    then some admin
    else if text_eq t (codes "user")
    then some user
    else none

abbrev pub read_role : Value → Option Role
read_role (text t) = read_role_text t
read_role _ = none

-- `z.string().optional()` with `?? null`; none where it is refused.
abbrev pub read_optional : Value → Option (Option Text)
read_optional undefined = some none
read_optional (text t) = some (some t)
read_optional _ = none

abbrev pub claims_of :
    ℕ → ℕ → ℕ → Option Role → Option (Option Text) → Option (Option Text) → Option AccessClaims
claims_of sub jti sid (some r) (some e) (some p) = some (record {
  identity_public_id = sub;
  token_id = jti;
  family_id = sid;
  role = r;
  email = e;
  phone_number = p;
})
claims_of sub jti sid _ _ _ = none

-- `accessTokenPayloadSchema`
unfoldable pub parse_payload : UuidText → Payload → Option AccessClaims
parse_payload uuids p =
    if is_uuid uuids p.sub && is_uuid uuids p.jti && is_uuid uuids p.sid
    then claims_of (uuid_of uuids p.sub) (uuid_of uuids p.jti) (uuid_of uuids p.sid)
        (read_role p.role) (read_optional p.email) (read_optional p.phone_number)
    else none

abbrev pub is_denied : ℕ → ℕ → Denial → Bool
is_denied family now d = (d.family_id == family) && ltb now d.until

-- `isFamilyDenied`
unfoldable pub is_family_denied : ℕ → Setting → List Denial → Result IdentityError Bool
is_family_denied family g denials =
    if g.redis_answers
    then ok (any (is_denied family g.now) denials)
    else if g.fail_open
    then ok false
    else err unavailable

abbrev pub accept_unless :
    AccessClaims → Result IdentityError Bool → Result IdentityError AccessClaims
accept_unless c (ok true) = err unauthorized
accept_unless c (ok false) = ok c
accept_unless c (err e) = err e

abbrev pub check_denial :
    Setting → List Denial → Option AccessClaims → Result IdentityError AccessClaims
check_denial g denials none = err unauthorized
check_denial g denials (some c) = accept_unless c (is_family_denied c.family_id g denials)

abbrev pub parse_verified : UuidText → Option Payload → Option AccessClaims
parse_verified uuids none = none
parse_verified uuids (some p) = parse_payload uuids p

-- `split(' ')`
unfoldable pub split_on : ℕ → Text → Text → List Text
split_on sep part [] = part ∷ []
split_on sep part (c ∷ t) =
    if c == sep then part ∷ split_on sep [] t else split_on sep (part ++ c ∷ []) t

-- `[scheme, token, ...rest]`: the token of a bearer header.
abbrev pub bearer_of : List Text → Option Text
bearer_of (scheme ∷ (c ∷ token) ∷ []) =
    if text_eq scheme (codes "Bearer") then some (c ∷ token) else none
bearer_of _ = none

abbrev pub header_or_empty : Option Text → Text
header_or_empty none = []
header_or_empty (some t) = t

-- How the guard ends: it lets the request through, with the identity if there is one, or it throws, with what it has set
-- as `WWW-Authenticate`.
pub data GuardOutcome : Type 0 where
  passed : Option AccessClaims → GuardOutcome
  thrown : IdentityError → Option Text → GuardOutcome

-- A request as the guards see it.
pub record Request : Type 0 where
  pub is_http : Bool
  pub is_public : Bool
  pub authorization : Option Text

abbrev pub challenge_for : Result IdentityError AccessClaims → GuardOutcome
challenge_for (ok c) = passed (some c)
challenge_for (err unauthorized) =
    thrown unauthorized (some (codes "Bearer error=\"invalid_token\""))
challenge_for (err e) = thrown e none

module _ (jwt : Jwt) (uuids : UuidText) where
  -- `verify`
  unfoldable pub verify : Text → Setting → List Denial → Result IdentityError AccessClaims
  verify token g denials =
      check_denial g denials (parse_verified uuids (jwt.verify token (g.now / 1000)))

  abbrev pub check_bearer : Setting → List Denial → Option Text → GuardOutcome
  check_bearer g denials none = thrown unauthorized (some (codes "Bearer"))
  check_bearer g denials (some token) = challenge_for (verify token g denials)

  -- `AccessTokenGuard.canActivate`
  unfoldable pub check_token : Request → Setting → List Denial → GuardOutcome
  check_token r g denials =
      if not r.is_http
      then passed none
      else if r.is_public
      then passed none
      else check_bearer g denials (bearer_of (split_on 32 [] (header_or_empty r.authorization)))
