-- ===== src/Identity/Oidc.antt =====
-- The end of a sign-in with an external provider: src/identity/command-handler/identity-oidc-sign-in.command-handler.ts.
use marketplace_api_v.Common.{
  [], ◌∷◌, ℕ, Bool, true, false, not, Option, none, some, ◌==◌, if◌then◌else◌, Text, Result, ok,
  err, throw, ◌>>=◌, transactional,
}
use marketplace_api_v.Identity.Store.{
  user, Provider, NewIdentity, Identity, IdentityDb, IdentityError, unauthorized, bad_request,
  conflict, Call, find_by_id, ExternalAccount,
}
use marketplace_api_v.Identity.Commands.{TokenPair, Setting, SignInAttempt, Auth, create_token_pair}
use marketplace_api_v.Identity.Accounts.{
  Fresh, find_by_email, find_by_public_id, find_by_provider_subject, same_provider, create_identity,
  create_account,
}
use marketplace_api_v.Identity.Register.{to_login_phone, conflict_of, welcome}
use marketplace_api_v.Identity.Attempts.{Grant, OidcIdentity, exchange, take_attempt}

abbrev pub new_by_email : Text → NewIdentity
new_by_email email = record {
  email = some email;
  login_phone = to_login_phone none;
  password_hash = none;
  role = user;
}

abbrev pub external_account : Provider → Text → Identity → ExternalAccount
external_account provider subject i = record {
  identity_id = i.id;
  provider = provider;
  subject = subject;
}

module _ (hash : ℕ → ℕ) where
  abbrev pub pair_for : Setting → Option Identity → Call TokenPair
  pair_for g none = throw unauthorized
  pair_for g (some i) = create_token_pair hash i g.fresh_family g

  -- The account, the event and the tokens of an identity that signs up.
  abbrev pub sign_up : Provider → Text → Setting → Identity → Call TokenPair
  sign_up provider subject g i =
      create_account (external_account provider subject i) >>= λ u. welcome hash g i

  abbrev pub link_account :
      Provider → Text → Setting → Identity → Option ExternalAccount → Call TokenPair
  link_account provider subject g i none =
      create_account (external_account provider subject i) >>= λ u.
      create_token_pair hash i g.fresh_family g
  link_account provider subject g i (some account) =
      if not (account.identity_id == i.id)
      then throw conflict
      else create_token_pair hash i g.fresh_family g

  abbrev pub link_found : Provider → Text → Setting → Option Identity → Call TokenPair
  link_found provider subject g none = throw unauthorized
  link_found provider subject g (some i) = λ db.
      link_account provider subject g i
        (find_by_provider_subject provider subject db.external_accounts) db

  -- `link`
  unfoldable pub link : Provider → OidcIdentity → ℕ → Setting → Call TokenPair
  link provider external identity g =
      transactional
        (λ db. link_found provider external.subject g (find_by_public_id identity db.identities) db)

module _ (hash : ℕ → ℕ) (fold : Text → Text) where
  abbrev pub sign_up_unless :
      Provider → Text → Text → Fresh → Setting → Option Identity → Call TokenPair
  sign_up_unless provider subject email fresh g (some taken) = throw conflict
  sign_up_unless provider subject email fresh g none =
      create_identity fold (new_by_email email) fresh g.now >>= sign_up hash provider subject g

  abbrev pub sign_in_with :
      Provider → Text → Text → Fresh → Setting → Option ExternalAccount → Call TokenPair
  sign_in_with provider subject email fresh g (some account) =
      λ db. pair_for hash g (find_by_id account.identity_id db.identities) db
  sign_in_with provider subject email fresh g none = λ db.
      sign_up_unless provider subject email fresh g (find_by_email fold email db.identities) db

  -- `signIn`
  unfoldable pub sign_in : Provider → OidcIdentity → Text → Fresh → Setting → Call TokenPair
  sign_in provider external email fresh g = transactional (λ db.
      sign_in_with provider external.subject email fresh g
        (find_by_provider_subject provider external.subject db.external_accounts) db)

  abbrev pub enter : Provider → OidcIdentity → Text → Option ℕ → Fresh → Setting → Call TokenPair
  enter provider external email none fresh g = sign_in provider external email fresh g
  enter provider external email (some identity) fresh g = link hash provider external identity g

  -- The result of a transaction, with the state around its database.
  abbrev pub on_db :
      Auth → Result IdentityError TokenPair × IdentityDb → Result IdentityError TokenPair × Auth
  on_db a (r, db) = (r, record a { db = db })

  -- The checks on what the provider says (`!external.email` holds of an empty text too), and the two ways on.
  abbrev pub enter_verified :
      Provider
      → OidcIdentity
      → Option ℕ
      → Fresh
      → Setting
      → Auth
      → Option Text
      → Bool
      → Result IdentityError TokenPair × Auth
  enter_verified provider external to fresh g a none verified = (err unauthorized, a)
  enter_verified provider external to fresh g a (some []) verified = (err unauthorized, a)
  enter_verified provider external to fresh g a (some (c ∷ t)) false = (err unauthorized, a)
  enter_verified provider external to fresh g a (some (c ∷ t)) true =
      on_db a (conflict_of (enter provider external (c ∷ t) to fresh g a.db))

  abbrev pub enter_exchanged :
      Provider
      → Option ℕ
      → Fresh
      → Setting
      → Auth
      → Result IdentityError OidcIdentity
      → Result IdentityError TokenPair × Auth
  enter_exchanged provider to fresh g a (err e) = (err e, a)
  enter_exchanged provider to fresh g a (ok external) =
      enter_verified provider external to fresh g a external.email external.email_verified

  -- What follows `take`.
  abbrev pub enter_taken :
      Provider
      → (SignInAttempt → Grant)
      → Fresh
      → Setting
      → Result IdentityError (Option SignInAttempt) × Auth
      → Result IdentityError TokenPair × Auth
  enter_taken provider grant fresh g (err e, a) = (err e, a)
  enter_taken provider grant fresh g (ok none, a) = (err bad_request, a)
  enter_taken provider grant fresh g (ok (some t), a) =
      if not (same_provider t.provider provider)
      then (err bad_request, a)
      else enter_exchanged provider t.link_identity fresh g a (exchange (grant t))

  -- `IdentityOidcSignInCommandHandler.execute`: the state of the callback, none if it is missing or empty, and that of the
  -- browser's cookie.
  unfoldable pub execute_sign_in :
      Provider
      → Option ℕ
      → Option ℕ
      → (SignInAttempt → Grant)
      → Fresh
      → Setting
      → Auth
      → Result IdentityError TokenPair × Auth
  execute_sign_in provider none browser grant fresh g a = (err bad_request, a)
  execute_sign_in provider (some state) none grant fresh g a = (err bad_request, a)
  execute_sign_in provider (some state) (some browser) grant fresh g a =
      if not (state == browser)
      then (err bad_request, a)
      else enter_taken provider grant fresh g (take_attempt state g a)
