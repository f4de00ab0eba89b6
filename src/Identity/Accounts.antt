-- ===== src/Identity/Accounts.antt =====
-- src/identity/repository: the queries on identities, on their external accounts and on the outbox; with
-- src/identity/service/identity-message.service.ts and password.service.ts. `fold` is how PostgreSQL compares two texts of
-- type `citext`: by their folded forms.
use marketplace_api_v.Common.{
  ℕ, ◌≡◌, Bool, true, false, not, ◌&&◌, ◌||◌, Option, none, some, List, [], ◌∷◌, ◌++◌, ◌==◌,
  if◌then◌else◌, any, ok, err, Text, codes, text_eq, take, every,
}
use marketplace_api_v.Outbox.Store.{Row, new_row}
use marketplace_api_v.Identity.Store.{
  NewIdentity, Identity, Provider, google, ExternalAccount, IdentityRegistered, unique_violation,
  query_failed, Call,
}
use marketplace_api_v.Identity.Forms.{meets_checks, at_most}

-- Argon2, as `PasswordService` uses it: a hash depends on a salt and is marked, and verifying it against the password that it was
-- made from succeeds.
pub record Argon : Type 0 where
  pub hash : ℕ → Text → Text
  pub verify : Text → Text → Bool
  pub dummy_hash : Text
  pub verify-hash : (salt : ℕ) (password : Text) → verify (hash salt password) password ≡ true
  pub is_marked :
      (salt : ℕ) (password : Text) → text_eq (take 7 (hash salt password)) (codes "$argon2") ≡ true

-- `PasswordService.verify`
abbrev pub verify_password : Argon → Option Text → Text → Bool
verify_password argon none password = false && argon.verify argon.dummy_hash password
verify_password argon (some h) password =
    argon.verify (if text_eq (take 7 h) (codes "$argon2") then h else argon.dummy_hash) password

-- What is generated for a new identity: its id, its public id, and the salt of its password.
pub record Fresh : Type 0 where
  pub identity_id : ℕ
  pub public_id : ℕ
  pub salt : ℕ

abbrev pub option_eq : (Text → Text) → Option Text → Option Text → Bool
option_eq f (some s) (some t) = text_eq (f s) (f t)
option_eq f _ _ = false

abbrev pub same_text : Text → Text
same_text t = t

abbrev pub same_provider : Provider → Provider → Bool
same_provider google google = true

-- `findByPublicId`
unfoldable pub find_by_public_id : ℕ → List Identity → Option Identity
find_by_public_id p [] = none
find_by_public_id p (i ∷ is) =
    if (i.public_id == p) && not i.deleted then some i else find_by_public_id p is

-- `findByPhone`
unfoldable pub find_by_phone : Text → List Identity → Option Identity
find_by_phone number [] = none
find_by_phone number (i ∷ is) =
    if option_eq same_text i.login_phone.full_number (some number) && not i.deleted
    then some i
    else find_by_phone number is

-- `findByProviderSubject`
unfoldable pub find_by_provider_subject :
    Provider → Text → List ExternalAccount → Option ExternalAccount
find_by_provider_subject provider subject [] = none
find_by_provider_subject provider subject (a ∷ rest) =
    if same_provider a.provider provider && text_eq a.subject subject
    then some a
    else find_by_provider_subject provider subject rest

-- The unique constraints of `IdentityExternalAccount`
abbrev pub same_account : ExternalAccount → ExternalAccount → Bool
same_account a b =
    (same_provider b.provider a.provider && text_eq b.subject a.subject)
    || ((b.identity_id == a.identity_id) && same_provider b.provider a.provider)

-- `btrim("subject") <> ''`, and the length of the column.
abbrev pub is_valid_subject : Text → Bool
is_valid_subject t = not (every (λ c. c == 32) t) && at_most 255 t

abbrev pub has_identity : ℕ → Identity → Bool
has_identity id i = i.id == id

-- `IdentityExternalAccountRepository.create`, with its foreign key.
unfoldable pub create_account : ExternalAccount → Call (Unit {0})
create_account a db =
    if not (is_valid_subject a.subject)
    then (err query_failed, db)
    else if any (same_account a) db.external_accounts
    then (err unique_violation, db)
    else if not (any (has_identity a.identity_id) db.identities)
    then (err query_failed, db)
    else (ok tt, record db { external_accounts = db.external_accounts ++ a ∷ [] })

-- `toIdentityRegisteredOutbox`
abbrev pub to_identity_registered : Identity → IdentityRegistered
to_identity_registered i = record {
  identity_id = i.id;
  identity_public_id = i.public_id;
  email = i.email;
  phone_number = i.login_phone.full_number;
  role = i.role;
  created_at = i.created_at;
}

-- `IdentityOutboxRepository.create` of it: the id of the row is the public id, and the primary key.
unfoldable pub create_outbox : Identity → ℕ → Call (Unit {0})
create_outbox i now db =
    if any (λ (r : Row IdentityRegistered). r.id == i.public_id) db.outbox
    then (err unique_violation, db)
    else (
      ok tt,
      record db { outbox = db.outbox ++ new_row i.public_id now (to_identity_registered i) ∷ [] },
    )

module _ (fold : Text → Text) where
  -- `findByEmail`
  unfoldable pub find_by_email : Text → List Identity → Option Identity
  find_by_email email [] = none
  find_by_email email (i ∷ is) =
      if option_eq fold i.email (some email) && not i.deleted
      then some i
      else find_by_email email is

  -- The unique constraints of `Identity`
  unfoldable pub same_identity : Identity → Identity → Bool
  same_identity i j =
      (j.id == i.id)
      || (j.public_id == i.public_id)
      || option_eq fold j.email i.email
      || option_eq same_text j.login_phone.full_number i.login_phone.full_number

  abbrev pub new_identity : NewIdentity → Fresh → ℕ → Identity
  new_identity n fresh now = record {
    id = fresh.identity_id;
    public_id = fresh.public_id;
    email = n.email;
    login_phone = n.login_phone;
    password_hash = n.password_hash;
    role = n.role;
    created_at = now;
    deleted = false;
  }

  -- `IdentityRepository.create`
  unfoldable pub create_identity : NewIdentity → Fresh → ℕ → Call Identity
  create_identity n fresh now db =
      if not (meets_checks n)
      then (err query_failed, db)
      else if any (same_identity (new_identity n fresh now)) db.identities
      then (err unique_violation, db)
      else (
        ok (new_identity n fresh now),
        record db { identities = db.identities ++ new_identity n fresh now ∷ [] },
      )
