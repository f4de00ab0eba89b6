-- ===== src/Identity/Register.antt =====
-- src/identity/command-handler/identity-register.command-handler.ts and identity-login.command-handler.ts.
use marketplace_api_v.Common.{
  ℕ, Bool, true, false, Option, none, some, if◌then◌else◌, Text, Result, ok, err, throw, ◌>>=◌,
  transactional,
}
use marketplace_api_v.Identity.Store.{
  LoginPhone, user, NewIdentity, Identity, IdentityDb, IdentityError, unauthorized, conflict,
  unique_violation, Call,
}
use marketplace_api_v.Identity.Commands.{TokenPair, Setting, create_token_pair}
use marketplace_api_v.Identity.Forms.{RegisterPhone, RegisterInput, LoginInput, starts_with_plus}
use marketplace_api_v.Identity.Accounts.{
  Argon, verify_password, Fresh, find_by_email, find_by_phone, create_identity, create_outbox,
}

abbrev pub to_login_phone : Option RegisterPhone → LoginPhone
to_login_phone none = record {
  country_code = none;
  raw_number = none;
  full_number = none;
  national_number = none;
}
to_login_phone (some p) = record {
  country_code = some p.country_code;
  raw_number = some p.raw_number;
  full_number = some p.full_number;
  national_number = some p.national_number;
}

abbrev pub to_new : RegisterInput → Text → NewIdentity
to_new input password_hash = record {
  email = input.email;
  login_phone = to_login_phone input.phone;
  password_hash = some password_hash;
  role = user;
}

-- `if (error instanceof QueryFailedError && code === UNIQUE_VIOLATION) throw new ConflictException(…)`
abbrev pub conflict_of : {A S : Type 0} → Result IdentityError A × S → Result IdentityError A × S
conflict_of (ok a, s) = (ok a, s)
conflict_of (err unique_violation, s) = (err conflict, s)
conflict_of (err e, s) = (err e, s)

abbrev pub password_hash_of : Option Identity → Option Text
password_hash_of none = none
password_hash_of (some i) = i.password_hash

module _ (hash : ℕ → ℕ) where
  -- What follows the creation of the identity.
  abbrev pub welcome : Setting → Identity → Call TokenPair
  welcome g i = create_outbox i g.now >>= λ u. create_token_pair hash i g.fresh_family g

  -- What follows the check of the password.
  abbrev pub admit : Setting → Bool → Option Identity → Call TokenPair
  admit g true (some i) = create_token_pair hash i g.fresh_family g
  admit g true none = throw unauthorized
  admit g false o = throw unauthorized

  -- `register`
  unfoldable pub register : (Text → Text) → RegisterInput → Text → Fresh → Setting → Call TokenPair
  register fold input password_hash fresh g =
      transactional (create_identity fold (to_new input password_hash) fresh g.now >>= welcome g)

unfoldable pub find_login : (Text → Text) → Text → IdentityDb → Option Identity
find_login fold login db =
    if starts_with_plus login
    then find_by_phone login db.identities
    else find_by_email fold login db.identities

module _ (hash : ℕ → ℕ) (argon : Argon) (fold : Text → Text) where
  -- `IdentityRegisterCommandHandler.execute`
  unfoldable pub execute_register : RegisterInput → Fresh → Setting → Call TokenPair
  execute_register input fresh g db =
      conflict_of (register hash fold input (argon.hash fresh.salt input.password) fresh g db)

  -- `IdentityLoginCommandHandler.execute`
  unfoldable pub execute_login : LoginInput → Setting → Call TokenPair
  execute_login input g db =
      let found = find_login fold input.login db in
      admit hash g (verify_password argon (password_hash_of found) input.password) found db
