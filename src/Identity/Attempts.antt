-- ===== src/Identity/Attempts.antt =====
-- The start of a sign-in with an external provider: src/identity/command-handler/identity-oidc-authorize.command-handler.ts and
-- identity-oidc-link.command-handler.ts, with src/identity/service/oidc-sign-in-attempt.service.ts and
-- oidc-client.service.ts. A state is a number; openid-client and the provider are arguments: what discovery
-- and the token exchange answer.
use marketplace_api_v.Common.{
  ℕ, ◌+◌, ◌*◌, Bool, true, false, not, Option, none, some, ltb, ◌==◌, if◌then◌else◌, keep, Table,
  lookup, put, Text, Result, ok, err,
}
use marketplace_api_v.Messaging.{Value, text}
use marketplace_api_v.Identity.Store.{
  Provider, Identity, IdentityError, unauthorized, unavailable, forbidden,
}
use marketplace_api_v.Identity.Commands.{Setting, SignInAttempt, Auth}
use marketplace_api_v.Identity.Accounts.{Argon, verify_password, find_by_public_id}
use marketplace_api_v.Identity.Register.{password_hash_of}

-- `OIDC_SIGN_IN_TTL_SECONDS` in milliseconds
abbrev pub sign_in_ttl : ℕ
sign_in_ttl = 600 * 1000

-- `claims()` of an ID token; `email_verified` is whether it is `true`.
pub record Claims : Type 0 where
  pub sub : Text
  pub email : Value
  pub email_verified : Bool

-- `OidcIdentityInterface`
pub record OidcIdentity : Type 0 where
  pub subject : Text
  pub email : Option Text
  pub email_verified : Bool

-- What the token exchange does: it has no configuration of the provider, it returns tokens with claims or without, it throws an error
-- of openid-client, or another one.
pub data Grant : Type 0 where
  no_configuration refused failed : Grant
  granted : Option Claims → Grant

abbrev pub email_of : Value → Option Text
email_of (text e) = some e
email_of _ = none

-- `exchange`
unfoldable pub exchange : Grant → Result IdentityError OidcIdentity
exchange no_configuration = err unavailable
exchange refused = err unauthorized
exchange failed = err unavailable
exchange (granted none) = err unauthorized
exchange (granted (some c)) =
    ok (record { subject = c.sub; email = email_of c.email; email_verified = c.email_verified })

abbrev pub forget : ℕ → Table SignInAttempt → Table SignInAttempt
forget state attempts = keep (λ e. not (e.0 == state)) attempts

abbrev pub with_attempt : SignInAttempt → Auth → Auth
with_attempt attempt a = record a { attempts = put attempt.state attempt a.attempts }

abbrev pub without_attempt : ℕ → Auth → Auth
without_attempt state a = record a { attempts = forget state a.attempts }

-- `save`
unfoldable pub save_attempt :
    SignInAttempt → Setting → Auth → Result IdentityError (Unit {0}) × Auth
save_attempt attempt g a =
    let after = if g.redis_applies then with_attempt attempt a else a in
    if g.redis_answers then (ok tt, with_attempt attempt a) else (err unavailable, after)

abbrev pub not_expired : ℕ → Option SignInAttempt → Option SignInAttempt
not_expired now none = none
not_expired now (some t) = if ltb now t.until then some t else none

-- `take`
unfoldable pub take_attempt :
    ℕ → Setting → Auth → Result IdentityError (Option SignInAttempt) × Auth
take_attempt state g a =
    let after = if g.redis_applies then without_attempt state a else a in
    if g.redis_answers
    then (ok (not_expired g.now (lookup state a.attempts)), without_attempt state a)
    else (err unavailable, after)

-- What `openid-client` generates for an attempt, and whether it has the provider's configuration.
pub record Start : Type 0 where
  pub state : ℕ
  pub nonce : ℕ
  pub code_verifier : ℕ
  pub has_configuration : Bool

abbrev pub state_if_saved :
    ℕ → Result IdentityError (Unit {0}) × Auth → Result IdentityError ℕ × Auth
state_if_saved state (ok u, a) = (ok state, a)
state_if_saved state (err e, a) = (err e, a)

-- `IdentityOidcAuthorizeCommandHandler.execute`: it returns the state.
unfoldable pub execute_authorize :
    Provider → Option ℕ → Start → Setting → Auth → Result IdentityError ℕ × Auth
execute_authorize provider link start g a =
    if not start.has_configuration
    then (err unavailable, a)
    else state_if_saved start.state (
        save_attempt
          (record {
            provider = provider;
            state = start.state;
            nonce = start.nonce;
            code_verifier = start.code_verifier;
            link_identity = link;
            until = g.now + sign_in_ttl;
          })
          g a)

abbrev pub confirmed :
    Provider → Start → Setting → Bool → Option Identity → Auth → Result IdentityError ℕ × Auth
confirmed provider start g true (some i) a = execute_authorize provider (some i.public_id) start g a
confirmed provider start g true none a = (err forbidden, a)
confirmed provider start g false o a = (err forbidden, a)

-- `IdentityOidcLinkCommandHandler.execute`
unfoldable pub execute_link :
    Argon → Provider → ℕ → Text → Start → Setting → Auth → Result IdentityError ℕ × Auth
execute_link argon provider identity password start g a =
    let found = find_by_public_id identity a.db.identities in
    confirmed provider start g (verify_password argon (password_hash_of found) password) found a
