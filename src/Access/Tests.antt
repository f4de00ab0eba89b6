-- ===== src/Access/Tests.antt =====
-- Examples of the check of access tokens (src/generic/auth).
use marketplace_api_v.Common.{
  ℕ, ◌+◌, ◌/◌, ◌≤◌, ◌≡◌, refl, true, none, some, [], ◌++◌, arith, codes, subst, ap, ◌∙◌,
}
use marketplace_api_v.Samples.{uuids}
use marketplace_api_v.Identity.Store.{Role, unauthorized, find_by_token_hash}
use marketplace_api_v.Identity.Commands.{access_token_ttl, deny_family, execute_logout}
use marketplace_api_v.Identity.Revoked.{IsErr}
use marketplace_api_v.Identity.Examples.{own_hash, session, auth, first, second}
use marketplace_api_v.Access.Tokens.{
  Payload, AccessClaims, passed, thrown, read_role_text, parse_payload, is_family_denied, split_on,
  verify, check_token,
}
use marketplace_api_v.Access.LoggedOut.{IsOfSession, verify-execute_logout}
use marketplace_api_v.Access.Examples.{payload, jwt, request}

abbrev claims : AccessClaims
claims = record {
  identity_public_id = 4;
  token_id = 3;
  family_id = 9;
  role = Role.user;
  email = some (codes "a@b.co");
  phone_number = none;
}

-- A token is accepted before the logout, and not after it.
token_accepted : check_token jwt uuids request first [] ≡ passed (some claims)
unfolding check_token verify is_family_denied parse_payload read_role_text split_on
token_accepted = refl

token_refused :
    check_token jwt uuids request
      (record second { redis_answers = true })
      (execute_logout own_hash 100 first auth).1.denied
    ≡ thrown unauthorized (some (codes "Bearer error=\"invalid_token\""))
unfolding check_token verify is_family_denied parse_payload read_role_text split_on execute_logout
    deny_family find_by_token_hash
token_refused = refl

payload-claims : (parse_payload uuids payload) ≡ some claims
unfolding parse_payload read_role_text
payload-claims = refl

only_payload : (t : ℕ) (p : Payload) → jwt.verify (codes "abc") t ≡ some p → payload ≡ p
only_payload t p h = ground arith

family_of_payload : (c : AccessClaims) → parse_payload uuids payload ≡ some c → c.family_id ≡ 9
family_of_payload c h = cc (rw payload-claims at h)

payload_of_session : IsOfSession jwt uuids own_hash 100 (codes "abc") first second auth session
payload_of_session t p c h k =
    let same = only_payload t p h in
    (
      family_of_payload c (ap (λ (x : Payload). parse_payload uuids x) same ∙ k),
      subst (λ (x : Payload). x.exp ≤ first.now / 1000 + access_token_ttl) same (omega arith),
    )

verify-execute_logout_example : IsErr (
    verify jwt uuids (codes "abc") second ([] ++ (execute_logout own_hash 100 first auth).1.denied))
unfolding find_by_token_hash
verify-execute_logout_example =
    verify-execute_logout jwt uuids own_hash 100 (codes "abc") first second auth session [] refl
      refl payload_of_session refl
