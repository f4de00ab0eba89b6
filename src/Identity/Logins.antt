-- ===== src/Identity/Logins.antt =====
-- Who registers can log in (src/identity/command-handler/identity-register.command-handler.ts and
-- identity-login.command-handler.ts), and whose login is never found.
use marketplace_api_v.Common.{
  ℕ, ◌≡◌, refl, sym, ap, ◌∙◌, subst, ◌⊎◌, Bool, true, false, Option, none, some, List, [], ◌∷◌,
  ◌++◌, arith, ◌==◌, any, every, All, Text, text_eq, text_eq_self, text_eq_sound, Bool-cases, inl,
  inr, ok, err,
}
use marketplace_api_v.Money.Text.{is_digit}
use marketplace_api_v.Identity.Store.{Identity, IdentityDb, unauthorized}
use marketplace_api_v.Identity.Commands.{TokenPair, Setting}
use marketplace_api_v.Identity.Forms.{
  RegisterPhone, RegisterInput, is_e164, is_address, has_email_format, starts_with_plus, holds_for,
  meets_checks,
}
use marketplace_api_v.Identity.Accounts.{
  Argon, Fresh, option_eq, same_text, same_identity, find_by_email, find_by_phone,
}
use marketplace_api_v.Identity.Register.{to_new, find_login, execute_register, execute_login}
use marketplace_api_v.Identity.Rotation.{new_session, new_pair}
use marketplace_api_v.Identity.Created.{with_identity, with_session, has_hash, create_token_pair-ok}
use marketplace_api_v.Identity.Registered.{registered, execute_register_inv}

-- An identity that clashes with none of a table is the one that is found in the table with it.
module _ (fold : Text → Text) where
  find_by_email-append :
      (i : Identity) (e : Text) (xs : List Identity)
      → i.email ≡ some e
      → i.deleted ≡ false
      → any (same_identity fold i) xs ≡ false
      → find_by_email fold e (xs ++ i ∷ []) ≡ some i
  unfolding find_by_email same_identity
  find_by_email-append i e [] mail alive free = rw (mail, alive, text_eq_self (fold e)) refl
  find_by_email-append i e (x ∷ xs) mail alive free =
      let apart : option_eq fold x.email i.email ≡ false = ground arith in
      let other : option_eq fold x.email (some e) ≡ false = rw mail at apart in
      rw other (find_by_email-append i e xs mail alive (ground arith))

  find_by_phone-append :
      (i : Identity) (n : Text) (xs : List Identity)
      → i.login_phone.full_number ≡ some n
      → i.deleted ≡ false
      → any (same_identity fold i) xs ≡ false
      → find_by_phone n (xs ++ i ∷ []) ≡ some i
  unfolding find_by_phone same_identity
  find_by_phone-append i n [] phone alive free = rw (phone, alive, text_eq_self n) refl
  find_by_phone-append i n (x ∷ xs) phone alive free =
      let apart : option_eq same_text x.login_phone.full_number i.login_phone.full_number ≡ false =
        ground arith in
      let other : option_eq same_text x.login_phone.full_number (some n) ≡ false =
        rw phone at apart in
      rw other (find_by_phone-append i n xs phone alive (ground arith))

is_e164-plus : (t : Text) → is_e164 t ≡ true → starts_with_plus t ≡ true
unfolding is_e164
is_e164-plus [] h = cc
is_e164-plus (p ∷ []) h = cc
is_e164-plus (p ∷ d ∷ rest) h = ground arith

abbrev is_at : ℕ → Bool
is_at c = c == b'@'

address-has_at : (seen : Bool) (t : Text) → is_address seen t ≡ true → any is_at t ≡ true
unfolding is_address
address-has_at seen [] h = cc
address-has_at seen (c ∷ t) h = ground (arith, address-has_at true t)

digits-no_at : (t : Text) → every is_digit t ≡ true → any is_at t ≡ false
digits-no_at [] h = refl
digits-no_at (c ∷ t) h = ground (arith, digits-no_at t)

is_e164-no_at : (t : Text) → is_e164 t ≡ true → any is_at t ≡ false
unfolding is_e164
is_e164-no_at [] h = cc
is_e164-no_at (p ∷ []) h = cc
is_e164-no_at (p ∷ d ∷ rest) h = ground (arith, digits-no_at rest)

email-not_e164 : (t : Text) → has_email_format t ≡ true → is_e164 t ≡ true → ⊥
email-not_e164 t mail phone = cc (address-has_at false t mail, is_e164-no_at t phone)

-- The check constraint on the phone numbers of a table.
abbrev pub HasPhones : List Identity → Type 0
HasPhones = All (λ (i : Identity). holds_for is_e164 i.login_phone.full_number ≡ true)

find_by_phone-none :
    (n : Text) (xs : List Identity)
    → HasPhones xs
    → (is_e164 n ≡ true → ⊥)
    → find_by_phone n xs ≡ none
unfolding find_by_phone
find_by_phone-none n [] v bad = refl
find_by_phone-none n (x ∷ xs) v bad =
    rw (other x.login_phone.full_number v.0) (find_by_phone-none n xs v.1 bad)
  where
    other : (o : Option Text) → holds_for is_e164 o ≡ true → option_eq same_text o (some n) ≡ false
    other none fits = refl
    other (some m) fits = elim (Bool-cases (text_eq m n)) [
      | inl same ↦
          absurd (bad (subst (λ (t : Text). is_e164 t ≡ true) (text_eq_sound m n same) fits))
      | inr apart ↦ apart
    ]

module _ (hash : ℕ → ℕ) (argon : Argon) (fold : Text → Text) where
  -- The logins of a registration: its email, unless that begins with a plus, and its phone number.
  abbrev pub IsLogin : RegisterInput → Text → Type 0
  IsLogin input login =
      ((input.email ≡ some login) × (starts_with_plus login ≡ false))
      ⊎ ((p : RegisterPhone) × (input.phone ≡ some p) × (p.full_number ≡ login))

  find_login-registered :
      (input : RegisterInput) (fresh : Fresh) (g : Setting) (login : Text) (db : IdentityDb)
      → IsLogin input login
      → meets_checks (to_new input (argon.hash fresh.salt input.password)) ≡ true
      → any (same_identity fold (registered hash argon fold input fresh g)) db.identities ≡ false
      → find_login fold login (with_identity (registered hash argon fold input fresh g) db)
        ≡ some (registered hash argon fold input fresh g)
  unfolding find_login meets_checks
  find_login-registered input fresh g login db (inl (mail, plain)) good free = rw plain (
      find_by_email-append fold (registered hash argon fold input fresh g) login db.identities mail
        refl free)
  find_login-registered input fresh g login db (inr (p, phone, number)) good free =
      let i = registered hash argon fold input fresh g in
      let full : i.login_phone.full_number ≡ some login = rw phone (ap some number) in
      let e164 : holds_for is_e164 i.login_phone.full_number ≡ true = ground arith in
      let plus : starts_with_plus login ≡ true = is_e164-plus login (rw full at e164) in
      rw plus (find_by_phone-append fold i login db.identities full refl free)

  -- Who has registered can log in: with the email, unless it begins with a plus, or with the phone number, and the same password, the
  -- login returns a pair for the identity that the registration returned a pair for. The random refresh token of the login
  -- is new.
  pub execute_register-login :
      (input : RegisterInput) (fresh : Fresh) (g later : Setting) (login : Text)
      (db after : IdentityDb) (p : TokenPair)
      → execute_register hash argon fold input fresh g db ≡ (ok p, after)
      → IsLogin input login
      → any (has_hash (hash later.fresh_token)) after.sessions ≡ false
      → (q : TokenPair) × (t : IdentityDb) × (execute_login hash argon fold
            (record { login = login; password = input.password })
            later
            after
          ≡ (ok q, t))
        × (q.subject ≡ p.subject)
  unfolding execute_login find_login
  execute_register-login input fresh g later login db after p h mine new =
      let r = execute_register_inv hash argon fold input fresh g db after p h in
      let i = registered hash argon fold input fresh g in
      let found : find_login fold login after ≡ some i =
        ap (find_login fold login) (sym r.4)
        ∙ find_login-registered input fresh g login db mine r.0 r.1 in
      (
        new_pair hash i later.fresh_family later,
        with_session (new_session hash i later.fresh_family later) after,
        rw
            (
              found,
              argon.is_marked fresh.salt input.password,
              argon.verify-hash fresh.salt input.password,
            )
            (create_token_pair-ok hash i later.fresh_family later after new),
        ap (λ (x : TokenPair). x.subject) r.3,
      )

  -- An email that begins with a plus is no login: the handler looks for a phone number, which an email never is, so the login is
  -- refused whoever has registered with it and whatever the password is. The phone numbers that are stored are in the
  -- E.164 format.
  pub execute_login-plus_email :
      (login password : Text) (g : Setting) (db : IdentityDb)
      → HasPhones db.identities
      → has_email_format login ≡ true
      → starts_with_plus login ≡ true
      → execute_login hash argon fold (record { login = login; password = password }) g db
        ≡ (err unauthorized, db)
  unfolding execute_login find_login
  execute_login-plus_email login password g db v mail plus =
      rw (plus, find_by_phone-none login db.identities v (email-not_e164 login mail)) refl
