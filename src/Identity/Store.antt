-- ===== src/Identity/Store.antt =====
-- src/identity/entity and repository: the tables, and the queries on sessions. A refresh token and its hash are
-- numbers; the hash is a parameter where it is taken. A family of sessions is the number of its UUID.
use marketplace_api_v.Common.{
  ℕ, Bool, true, false, not, ◌&&◌, Option, none, some, List, [], ◌∷◌, ◌++◌, map, ltb, ◌==◌,
  if◌then◌else◌, any, ok, err, Tx, Text,
}
use marketplace_api_v.Outbox.Store.{Row}

-- `IdentitySession`, without the columns that no query reads.
pub record Session : Type 0 where
  pub identity_id : ℕ
  pub family_id : ℕ
  pub token_hash : ℕ
  pub expires_at : ℕ
  pub used_at : Option ℕ
  pub revoked_at : Option ℕ

pub data Role : Type 0 where
  owner seller admin user : Role

pub data Country : Type 0 where
  ua us pl de gb : Country

pub data Provider : Type 0 where
  google : Provider

-- `LoginPhone`
pub record LoginPhone : Type 0 where
  pub country_code : Option Country
  pub raw_number : Option Text
  pub full_number : Option Text
  pub national_number : Option Text

-- `IdentityCreateEntityInterface`
pub record NewIdentity : Type 0 where
  pub email : Option Text
  pub login_phone : LoginPhone
  pub password_hash : Option Text
  pub role : Role

-- `Identity`, without the columns that no query reads.
pub record Identity : Type 0 where
  pub id : ℕ
  pub public_id : ℕ
  pub email : Option Text
  pub login_phone : LoginPhone
  pub password_hash : Option Text
  pub role : Role
  pub created_at : ℕ
  pub deleted : Bool

-- `IdentityExternalAccount`
pub record ExternalAccount : Type 0 where
  pub identity_id : ℕ
  pub provider : Provider
  pub subject : Text

-- `IdentityRegisteredEvent.DataInterface`
pub record IdentityRegistered : Type 0 where
  pub identity_id : ℕ
  pub identity_public_id : ℕ
  pub email : Option Text
  pub phone_number : Option Text
  pub role : Role
  pub created_at : ℕ

pub record IdentityDb : Type 0 where
  pub identities : List Identity
  pub sessions : List Session
  pub external_accounts : List ExternalAccount
  pub outbox : List (Row IdentityRegistered)

-- What a handler throws: an HTTP error, a `QueryFailedError` of PostgreSQL for a unique constraint, or another one.
pub data IdentityError : Type 0 where
  unauthorized unavailable bad_request forbidden conflict : IdentityError
  unique_violation query_failed : IdentityError

abbrev pub Call : Type 0 → Type 0
Call A = Tx IdentityDb IdentityError A

abbrev pub is_set : Option ℕ → Bool
is_set none = false
is_set (some t) = true

-- `findById`: a soft-deleted identity is not found.
unfoldable pub find_by_id : ℕ → List Identity → Option Identity
find_by_id id [] = none
find_by_id id (i ∷ is) = if (i.id == id) && not i.deleted then some i else find_by_id id is

-- `findByTokenHash`
unfoldable pub find_by_token_hash : ℕ → List Session → Option Session
find_by_token_hash hash [] = none
find_by_token_hash hash (s ∷ rows) =
    if s.token_hash == hash then some s else find_by_token_hash hash rows

-- `usedAt IS NULL AND revokedAt IS NULL AND expiresAt > now`
abbrev pub is_live : ℕ → Session → Bool
is_live now s = not (is_set s.used_at) && not (is_set s.revoked_at) && ltb now s.expires_at

abbrev pub used : ℕ → Session → Session
used now s = record s { used_at = some now }

-- `consume`: `tokenHash` is unique, so at most one row is meant. Whether it was live, and the rows after.
unfoldable pub consume : ℕ → ℕ → List Session → Option Session × List Session
consume hash now [] = (none, [])
consume hash now (s ∷ rows) =
    let rest = consume hash now rows in
    if s.token_hash == hash
    then if is_live now s then (some s, used now s ∷ rows) else (none, s ∷ rows)
    else (rest.0, s ∷ rest.1)

abbrev pub revoked : ℕ → ℕ → Session → Session
revoked family now s =
    if (s.family_id == family) && not (is_set s.revoked_at)
    then record s { revoked_at = some now }
    else s

-- `revokeFamily`
unfoldable pub revoke_family : ℕ → ℕ → List Session → List Session
revoke_family family now = map (revoked family now)

-- `create`: a second row with the hash makes PostgreSQL throw.
unfoldable pub create_session : Session → Call (Unit {0})
create_session s db =
    if any (λ (r : Session). r.token_hash == s.token_hash) db.sessions
    then (err unique_violation, db)
    else (ok tt, record db { sessions = db.sessions ++ s ∷ [] })
