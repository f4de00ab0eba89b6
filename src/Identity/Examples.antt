-- ===== src/Identity/Examples.antt =====
-- Data for the examples of the identity service: a token is its own hash, and Argon2 hides nothing.
use marketplace_api_v.Common.{
  ℕ, ◌≡◌, refl, true, false, none, some, [], ◌∷◌, ◌++◌, Text, codes, text_eq, text_eq_self, take,
  ok,
}
use marketplace_api_v.Messaging.{text}
use marketplace_api_v.Identity.Store.{
  Role, Session, Identity, IdentityDb, google, user, create_session,
}
use marketplace_api_v.Identity.Commands.{Setting, SignInAttempt, Auth, TokenPair, create_token_pair}
use marketplace_api_v.Identity.Forms.{RegisterInput, is_address, meets_checks}
use marketplace_api_v.Identity.Accounts.{
  Argon, Fresh, create_identity, same_identity, create_outbox,
}
use marketplace_api_v.Identity.Register.{register, execute_register}
use marketplace_api_v.Identity.Attempts.{Grant, granted}

abbrev pub own_hash : ℕ → ℕ
own_hash t = t

-- One session of the family 9, with the token 100.
abbrev pub session : Session
session = record {
  identity_id = 1;
  family_id = 9;
  token_hash = 100;
  expires_at = 5000;
  used_at = none;
  revoked_at = none;
}

abbrev pub buyer : Identity
buyer = record {
  id = 1;
  public_id = 4;
  email = some (codes "a@b.co");
  login_phone = record {
    country_code = none;
    raw_number = none;
    full_number = none;
    national_number = none;
  };
  password_hash = some (codes "$argon2:secret");
  role = user;
  created_at = 0;
  deleted = false;
}

abbrev pub auth : Auth
auth = record {
  db = record {
    identities = buyer ∷ [];
    sessions = session ∷ [];
    external_accounts = [];
    outbox = [];
  };
  denied = [];
  attempts = [];
}

abbrev pub first : Setting
first = record {
  now = 10;
  fresh_token = 101;
  fresh_token_id = 201;
  fresh_family = 301;
  redis_answers = true;
  redis_applies = true;
  fail_open = false;
}

abbrev pub second : Setting
second = record {
  now = 20;
  fresh_token = 102;
  fresh_token_id = 202;
  fresh_family = 302;
  redis_answers = false;
  redis_applies = false;
  fail_open = false;
}

pub marked :
    (salt : ℕ) (password : Text)
    → text_eq (take 7 (codes "$argon2" ++ password)) (codes "$argon2") ≡ true
marked salt password = refl

pub verified :
    (salt : ℕ) (password : Text)
    → text_eq (codes "$argon2" ++ password) (codes "$argon2" ++ password) ≡ true
verified salt password = text_eq_self (codes "$argon2" ++ password)

abbrev pub argon : Argon
argon = record {
  hash = λ salt password. codes "$argon2" ++ password;
  verify = λ h password. text_eq h (codes "$argon2" ++ password);
  dummy_hash = codes "$argon2";
  verify-hash = verified;
  is_marked = marked;
}

abbrev pub same_case : Text → Text
same_case t = t

abbrev pub ann : RegisterInput
ann = record { email = some (codes "ann@shop.co"); phone = none; password = codes "password" }

abbrev pub fresh : Fresh
fresh = record { identity_id = 2; public_id = 5; salt = 0 }

-- An attempt to sign in with the state 7.
abbrev pub attempt : SignInAttempt
attempt = record {
  provider = google;
  state = 7;
  nonce = 8;
  code_verifier = 9;
  link_identity = none;
  until = 600_000;
}

abbrev pub waiting : Auth
waiting = record auth { attempts = (7, attempt) ∷ [] }

abbrev pub grant : SignInAttempt → Grant
grant t = granted (
    some (record { sub = codes "1001"; email = text (codes "ann@shop.co"); email_verified = true }))

abbrev pub registered_db : IdentityDb
registered_db = (execute_register own_hash argon same_case ann fresh first auth.db).1

-- The pair of Ann's registration, and of her sign-up through the provider.
abbrev pub pair : TokenPair
pair = record {
  refresh_token = 101;
  subject = 5;
  family_id = 301;
  token_id = 201;
  role = Role.user;
  email = some (codes "ann@shop.co");
  phone_number = none;
  issued_at = 0;
  expires_at = 900;
}

pub ann_registered :
    execute_register own_hash argon same_case ann fresh first auth.db ≡ (ok pair, registered_db)
unfolding execute_register register create_identity meets_checks is_address same_identity
    create_outbox create_token_pair create_session
ann_registered = refl
