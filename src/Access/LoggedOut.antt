-- ===== src/Access/LoggedOut.antt =====
-- An access token of a family that has logged out (src/generic/auth/access-token-denylist.service.ts).
use marketplace_api_v.Common.{
  ℕ, ◌+◌, ◌*◌, ◌/◌, ◌≤◌, ◌<◌, ◌≡◌, refl, Bool, true, not, ◌||◌, Option, none, some, List, [], ◌∷◌,
  ◌++◌, arith, any, Text, Bool-cases, inl, inr,
}
use marketplace_api_v.Messaging.{UuidText}
use marketplace_api_v.Identity.Store.{Session, find_by_token_hash}
use marketplace_api_v.Identity.Commands.{
  access_token_ttl, clock_tolerance, Setting, Denial, Auth, deny_family, execute_logout,
}
use marketplace_api_v.Identity.Revoked.{IsErr}
use marketplace_api_v.Access.Tokens.{
  Payload, Jwt, AccessClaims, parse_payload, is_denied, is_family_denied, accept_unless,
  check_denial, parse_verified, verify,
}

any-append_right :
    (p : Denial → Bool) (xs ys : List Denial) → any p ys ≡ true → any p (xs ++ ys) ≡ true
any-append_right p [] ys h = h
any-append_right p (x ∷ xs) ys h = ground (arith, any-append_right p xs ys h)

-- A token is not accepted while its family is denied, if Redis answers or the check fails closed.
denied-IsErr :
    (c : AccessClaims) (g : Setting) (denials : List Denial)
    → any (is_denied c.family_id g.now) denials ≡ true
    → (g.redis_answers || not g.fail_open) ≡ true
    → IsErr (accept_unless c (is_family_denied c.family_id g denials))
unfolding is_family_denied
denied-IsErr c g denials found strict = elim (Bool-cases g.redis_answers) [
  | inl up ↦ rw (up, found) tt
  | inr down ↦ elim (Bool-cases g.fail_open) [
    | inl lenient ↦ cc (rw (down, lenient) at strict)
    | inr closed ↦ rw (down, closed) tt
  ]
]

module _ (jwt : Jwt) (uuids : UuidText) (hash : ℕ → ℕ) (refresh : ℕ) (access : Text)
    (g later : Setting) (a : Auth) (s : Session) where
  -- The token is of the session's family, and was issued no later than the logout.
  abbrev pub IsOfSession : Type 0
  IsOfSession =
      (t : ℕ) (p : Payload) (c : AccessClaims)
      → jwt.verify access t ≡ some p
      → parse_payload uuids p ≡ some c
      → (c.family_id ≡ s.family_id) × (p.exp ≤ g.now / 1000 + access_token_ttl)

  abbrev denial : Denial
  denial = record {
    family_id = s.family_id;
    until = g.now + (access_token_ttl + clock_tolerance) * 1000;
  }

  logged_out-denied :
      find_by_token_hash (hash refresh) a.db.sessions ≡ some s
      → g.redis_answers ≡ true
      → (execute_logout hash refresh g a).1.denied ≡ denial ∷ a.denied
  unfolding execute_logout deny_family
  logged_out-denied found up = rw (found, up) refl

  -- As long as the token would be in time, the denial stands.
  still_denied :
      (p : Payload) (c : AccessClaims)
      → jwt.verify access (later.now / 1000) ≡ some p
      → c.family_id ≡ s.family_id
      → p.exp ≤ g.now / 1000 + access_token_ttl
      → is_denied c.family_id later.now denial ≡ true
  still_denied p c verified mine issued =
      let early = jwt.in_time access (later.now / 1000) p verified in
      let before : later.now < g.now + (access_token_ttl + clock_tolerance) * 1000 = omega arith in
      ground arith

  verified-IsErr :
      (newer : List Denial) (o : Option Payload)
      → jwt.verify access (later.now / 1000) ≡ o
      → IsOfSession
      → (later.redis_answers || not later.fail_open) ≡ true
      → IsErr (check_denial later (newer ++ denial ∷ a.denied) (parse_verified uuids o))
  verified-IsErr newer none e mine strict = tt
  verified-IsErr newer (some p) e mine strict = parsed (parse_payload uuids p) refl
    where
      parsed :
          (o : Option AccessClaims)
          → parse_payload uuids p ≡ o
          → IsErr (check_denial later (newer ++ denial ∷ a.denied) o)
      parsed none k = tt
      parsed (some c) k =
          let own = mine (later.now / 1000) p c e k in
          denied-IsErr c later (newer ++ denial ∷ a.denied)
            (any-append_right (is_denied c.family_id later.now) newer (denial ∷ a.denied)
              (rw (still_denied p c e own.0 own.1) refl))
            strict

  -- After a logout that Redis took, no access token of the family is accepted any more, at whatever time: as long as the token is in
  -- time, its denial stands. The token was issued no later than the logout, Redis answers the check or the check fails
  -- closed, and other families may be denied since.
  pub verify-execute_logout :
      (newer : List Denial)
      → find_by_token_hash (hash refresh) a.db.sessions ≡ some s
      → g.redis_answers ≡ true
      → IsOfSession
      → (later.redis_answers || not later.fail_open) ≡ true
      → IsErr (verify jwt uuids access later (newer ++ (execute_logout hash refresh g a).1.denied))
  unfolding verify
  verify-execute_logout newer found up mine strict =
      rw (logged_out-denied found up)
        (verified-IsErr newer (jwt.verify access (later.now / 1000)) refl mine strict)
