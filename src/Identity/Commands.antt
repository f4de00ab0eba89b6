-- ===== src/Identity/Commands.antt =====
-- src/identity/command-handler/identity-refresh.command-handler.ts and identity-logout.command-handler.ts, with
-- src/identity/service/token.service.ts and src/generic/auth/access-token-denylist.service.ts.
use marketplace_api_v.Common.{
  ℕ, ◌+◌, ◌*◌, ◌/◌, Bool, Text, Table, Option, none, some, List, ◌∷◌, if◌then◌else◌, Result, ok,
  err, pure, ◌>>=◌, transactional,
}
use marketplace_api_v.Identity.Store.{
  Session, Role, Provider, Identity, IdentityDb, IdentityError, unauthorized, unavailable, Call,
  is_set, find_by_id, find_by_token_hash, consume, revoke_family, create_session,
}

-- `ACCESS_TOKEN_TTL_SECONDS` and `ACCESS_TOKEN_CLOCK_TOLERANCE_SECONDS`
abbrev pub access_token_ttl : ℕ
access_token_ttl = 15 * 60

abbrev pub clock_tolerance : ℕ
clock_tolerance = 5

-- The refresh token, and the claims of the access token: whose it is, its family (`sid`), and its times in seconds.
pub record TokenPair : Type 0 where
  pub refresh_token : ℕ
  pub subject : ℕ
  pub family_id : ℕ
  pub token_id : ℕ
  pub role : Role
  pub email : Option Text
  pub phone_number : Option Text
  pub issued_at : ℕ
  pub expires_at : ℕ

-- `REFRESH_TOKEN_TTL_MS`
abbrev pub refresh_token_ttl : ℕ
refresh_token_ttl = 30 * 24 * 60 * 60 * 1000

-- What a request finds: the time, what it generates, whether Redis answers in time, whether Redis carries out a command that it does
-- not answer, and `ACCESS_DENYLIST_FAIL_OPEN`.
pub record Setting : Type 0 where
  pub now : ℕ
  pub fresh_token : ℕ
  pub fresh_token_id : ℕ
  pub fresh_family : ℕ
  pub redis_answers : Bool
  pub redis_applies : Bool
  pub fail_open : Bool

-- A denied family, and the time at which Redis forgets it.
pub record Denial : Type 0 where
  pub family_id : ℕ
  pub until : ℕ

-- `OidcSignInAttemptInterface`, with the time at which Redis forgets it.
pub record SignInAttempt : Type 0 where
  pub provider : Provider
  pub state : ℕ
  pub nonce : ℕ
  pub code_verifier : ℕ
  pub link_identity : Option ℕ
  pub until : ℕ

-- The database, and the denied families and the attempts to sign in, which are in Redis.
pub record Auth : Type 0 where
  pub db : IdentityDb
  pub denied : List Denial
  pub attempts : Table SignInAttempt

module _ (hash : ℕ → ℕ) where
  -- `createTokenPair`
  unfoldable pub create_token_pair : Identity → ℕ → Setting → Call TokenPair
  create_token_pair identity family g =
      create_session (record {
        identity_id = identity.id;
        family_id = family;
        token_hash = hash g.fresh_token;
        expires_at = g.now + refresh_token_ttl;
        used_at = none;
        revoked_at = none;
      })
      >>= λ u. pure (record {
        refresh_token = g.fresh_token;
        subject = identity.public_id;
        family_id = family;
        token_id = g.fresh_token_id;
        role = identity.role;
        email = identity.email;
        phone_number = identity.login_phone.full_number;
        issued_at = g.now / 1000;
        expires_at = g.now / 1000 + access_token_ttl;
      })

  abbrev pub found_pair : TokenPair → Call (Option TokenPair)
  found_pair p = pure (some p)

  -- What follows the look-up of the identity.
  abbrev pub issue : Session → Setting → Option Identity → Call (Option TokenPair)
  issue s g none = pure none
  issue s g (some i) = create_token_pair i s.family_id g >>= found_pair

  -- What follows `consume`.
  abbrev pub after_consume : Setting → Option Session × List Session → Call (Option TokenPair)
  after_consume g (none, rows) db = (ok none, record db { sessions = rows })
  after_consume g (some s, rows) db =
      issue s g (find_by_id s.identity_id db.identities) (record db { sessions = rows })

  -- `rotate`; the lock on the family makes these steps one at a time for a family.
  abbrev pub rotate_presented : ℕ → Setting → Option Session → Call (Option TokenPair)
  rotate_presented h g none = pure none
  rotate_presented h g (some p) = λ db. after_consume g (consume h g.now db.sessions) db

  unfoldable pub rotate : ℕ → Setting → Call (Option TokenPair)
  rotate h g = transactional (λ db. rotate_presented h g (find_by_token_hash h db.sessions) db)

  -- `SET denied-family:… 1 EX deniedTtlSeconds`
  abbrev pub denied : ℕ → Setting → Auth → Auth
  denied family g a = record a {
    denied =
        record { family_id = family; until = g.now + (access_token_ttl + clock_tolerance) * 1000 }
        ∷ a.denied;
  }

  -- `denyFamily`
  unfoldable pub deny_family : ℕ → Setting → Auth → Result IdentityError (Unit {0}) × Auth
  deny_family family g a =
      let after = if g.redis_applies then denied family g a else a in
      if g.redis_answers
      then (ok tt, denied family g a)
      else if g.fail_open
      then (ok tt, after)
      else (err unavailable, after)

  abbrev pub revoke : ℕ → Setting → Auth → Auth
  revoke family g a = record a {
    db = record a.db { sessions = revoke_family family g.now a.db.sessions };
  }

  -- The end of a refresh that did not rotate: it throws either way.
  abbrev pub refuse : Result IdentityError (Unit {0}) × Auth → Result IdentityError TokenPair × Auth
  refuse (ok u, a) = (err unauthorized, a)
  refuse (err e, a) = (err e, a)

  abbrev pub detect_reuse : Setting → Auth → Option Session → Result IdentityError TokenPair × Auth
  detect_reuse g a none = (err unauthorized, a)
  detect_reuse g a (some s) =
      if is_set s.used_at
      then refuse (deny_family s.family_id g (revoke s.family_id g a))
      else (err unauthorized, a)

  -- What follows `rotate`.
  abbrev pub finish_refresh :
      ℕ
      → Setting
      → Auth
      → Result IdentityError (Option TokenPair) × IdentityDb
      → Result IdentityError TokenPair × Auth
  finish_refresh h g a (ok (some pair), db) = (ok pair, record a { db = db })
  finish_refresh h g a (ok none, db) =
      detect_reuse g (record a { db = db }) (find_by_token_hash h db.sessions)
  finish_refresh h g a (err e, db) = (err e, record a { db = db })

  -- `IdentityRefreshCommandHandler.execute`
  unfoldable pub execute_refresh : ℕ → Setting → Auth → Result IdentityError TokenPair × Auth
  execute_refresh token g a = finish_refresh (hash token) g a (rotate (hash token) g a.db)

  -- `IdentityLogoutCommandHandler.execute`
  abbrev pub end_session : Setting → Auth → Option Session → Result IdentityError (Unit {0}) × Auth
  end_session g a none = (ok tt, a)
  end_session g a (some s) = deny_family s.family_id g (revoke s.family_id g a)

  unfoldable pub execute_logout : ℕ → Setting → Auth → Result IdentityError (Unit {0}) × Auth
  execute_logout token g a = end_session g a (find_by_token_hash (hash token) a.db.sessions)
