-- ===== src/Identity/EntryTests.antt =====
-- Examples of registration, login and signing in through a provider (src/identity/command-handler).
use marketplace_api_v.Common.{◌≡◌, refl, true, false, some, codes, ok, err, any, inl}
use marketplace_api_v.Identity.Store.{IdentityDb, google, unauthorized, create_session}
use marketplace_api_v.Identity.Commands.{TokenPair, Auth, create_token_pair}
use marketplace_api_v.Identity.Forms.{is_address, meets_checks}
use marketplace_api_v.Identity.Accounts.{
  same_identity, create_identity, create_account, create_outbox, find_by_email,
  find_by_provider_subject,
}
use marketplace_api_v.Identity.Register.{register, execute_register, execute_login}
use marketplace_api_v.Identity.Attempts.{exchange, take_attempt}
use marketplace_api_v.Identity.Oidc.{sign_in, execute_sign_in}
use marketplace_api_v.Identity.Created.{has_hash}
use marketplace_api_v.Identity.Logins.{execute_register-login, execute_login-plus_email}
use marketplace_api_v.Identity.SignedIn.{SignedIn, execute_sign_in-SignedIn}
use marketplace_api_v.Identity.Examples.{
  own_hash, auth, first, second, argon, same_case, ann, fresh, waiting, grant, registered_db, pair,
  ann_registered,
}

token_new : any (has_hash 102) registered_db.sessions ≡ false
unfolding execute_register register create_identity meets_checks is_address same_identity
    create_outbox create_token_pair create_session
token_new = refl

execute_register-login_example :
    (q : TokenPair) × (t : IdentityDb) × (execute_login own_hash argon same_case
        (record { login = codes "ann@shop.co"; password = codes "password" })
        second
        registered_db
      ≡ (ok q, t))
    × (q.subject ≡ 5)
execute_register-login_example =
    execute_register-login own_hash argon same_case ann fresh first second (codes "ann@shop.co")
      auth.db registered_db pair ann_registered (inl (refl, refl)) token_new

plus_has_format : is_address false (codes "+ann@shop.co") ≡ true
unfolding is_address
plus_has_format = refl

execute_login-plus_email_example :
    execute_login own_hash argon same_case
      (record { login = codes "+ann@shop.co"; password = codes "password" })
      second
      auth.db
    ≡ (err unauthorized, auth.db)
execute_login-plus_email_example =
    execute_login-plus_email own_hash argon same_case (codes "+ann@shop.co") (codes "password")
      second auth.db (refl, tt) plus_has_format refl

abbrev signed_in : Auth
signed_in =
    (execute_sign_in own_hash same_case google (some 7) (some 7) grant fresh first waiting).1

ann_signed_in :
    execute_sign_in own_hash same_case google (some 7) (some 7) grant fresh first waiting
    ≡ (ok pair, signed_in)
unfolding execute_sign_in take_attempt exchange sign_in find_by_provider_subject find_by_email
    create_identity meets_checks is_address same_identity create_account create_outbox
    create_token_pair create_session
ann_signed_in = refl

execute_sign_in-SignedIn_example :
    SignedIn same_case google (some 7) (some 7) grant 10 waiting pair signed_in
execute_sign_in-SignedIn_example =
    execute_sign_in-SignedIn own_hash same_case google grant fresh first signed_in pair (some 7)
      (some 7) waiting ann_signed_in
