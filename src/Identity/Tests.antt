-- ===== src/Identity/Tests.antt =====
-- Examples of the sessions of src/identity, where a token is its own hash.
use marketplace_api_v.Common.{◌≡◌, refl, none, some, [], ◌∷◌, ok, All, codes}
use marketplace_api_v.Identity.Store.{user, find_by_id, find_by_token_hash, consume, create_session}
use marketplace_api_v.Identity.Commands.{
  TokenPair, Auth, create_token_pair, rotate, execute_refresh, execute_logout,
}
use marketplace_api_v.Identity.Examples.{own_hash, session, auth, first, second}
use marketplace_api_v.Identity.Rows.{IsRevoked}
use marketplace_api_v.Identity.Revoked.{IsErr, execute_refresh-again}
use marketplace_api_v.Identity.Ended.{ended_family}

abbrev pair : TokenPair
pair = record {
  refresh_token = 101;
  subject = 4;
  family_id = 9;
  token_id = 201;
  role = user;
  email = some (codes "a@b.co");
  phone_number = none;
  issued_at = 0;
  expires_at = 900;
}

refreshed :
    execute_refresh own_hash 100 first auth ≡ (ok pair, (execute_refresh own_hash 100 first auth).1)
unfolding execute_refresh rotate consume find_by_token_hash find_by_id create_token_pair
    create_session
refreshed = refl

execute_refresh-again_example :
    IsErr (execute_refresh own_hash 100 second (execute_refresh own_hash 100 first auth).1).0
    × All
        (IsRevoked 9)
        (execute_refresh own_hash 100 second
          (execute_refresh own_hash 100 first auth).1).1.db.sessions
execute_refresh-again_example =
    execute_refresh-again own_hash 100 first second auth (execute_refresh own_hash 100 first auth).1
      pair refreshed

-- The session after a logout.
abbrev ended : Auth
ended = record auth {
  db = record auth.db { sessions = (record session { revoked_at = some 10 }) ∷ [] };
}

ended_family_example :
    All (IsRevoked 9) (execute_refresh own_hash 100 second ended).1.db.sessions
    × All (IsRevoked 9) (execute_logout own_hash 100 second ended).1.db.sessions
ended_family_example = ended_family own_hash 9 100 second ended (λ h. refl, tt)
