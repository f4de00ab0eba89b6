-- ===== src/Identity/Consistent.antt =====
-- What the tables of the identity service keep to (src/identity/entity), whatever command runs.
use marketplace_api_v.Common.{
  ℕ, ◌≡◌, refl, ◌∙◌, Bool, true, false, Option, none, some, List, [], ◌∷◌, ◌++◌, arith, ◌==◌, any,
  All, All-append, Text, text_eq_comm, Bool-cases, inl, inr, Result, ok, err, pure, continue_with,
  conclude, ◌>>=◌, transactional,
}
use marketplace_api_v.Identity.Store.{
  Session, Provider, google, NewIdentity, Identity, ExternalAccount, IdentityDb, IdentityError,
  Call, create_session,
}
use marketplace_api_v.Identity.Commands.{Setting, create_token_pair}
use marketplace_api_v.Identity.Rotation.{new_session, new_pair}
use marketplace_api_v.Identity.Forms.{is_e164, holds_for, meets_checks}
use marketplace_api_v.Identity.Accounts.{
  Fresh, option_eq, same_text, same_provider, has_identity, is_valid_subject, same_account,
  create_account, create_outbox, same_identity, new_identity, create_identity,
}
use marketplace_api_v.Identity.Created.{has_id}

-- No row clashes with one that stands behind it.
abbrev pub Unique {ℓ} : {A : Type ℓ} → (A → A → Bool) → List A → Type 0
Unique clash [] = Unit
Unique clash (x ∷ xs) = (any (clash x) xs ≡ false) × Unique clash xs

any-snoc {ℓ} :
    {A : Type ℓ} (p : A → Bool) (xs : List A) (x : A)
    → any p xs ≡ false
    → p x ≡ false
    → any p (xs ++ x ∷ []) ≡ false
any-snoc p [] x h e = rw e refl
any-snoc p (y ∷ xs) x h e = ground (arith, any-snoc p xs x)

any_mono {ℓ} :
    {A : Type ℓ} (p : A → Bool) (xs ys : List A) → any p xs ≡ true → any p (xs ++ ys) ≡ true
any_mono p [] ys h = cc
any_mono p (y ∷ xs) ys h = ground (arith, any_mono p xs ys)

Unique-snoc {ℓ} :
    {A : Type ℓ} (clash : A → A → Bool) (xs : List A) (x : A)
    → ((y : A) → clash y x ≡ clash x y)
    → any (clash x) xs ≡ false
    → Unique clash xs
    → Unique clash (xs ++ x ∷ [])
Unique-snoc clash [] x comm free u = (refl, tt)
Unique-snoc clash (y ∷ xs) x comm free u = (
  any-snoc (clash y) xs x u.0 (comm y ∙ ground arith),
  Unique-snoc clash xs x comm (ground arith) u.1,
)

option_eq_comm : (f : Text → Text) (s t : Option Text) → option_eq f s t ≡ option_eq f t s
option_eq_comm f none none = refl
option_eq_comm f none (some t) = refl
option_eq_comm f (some s) none = refl
option_eq_comm f (some s) (some t) = text_eq_comm (f s) (f t)

same_provider_comm : (p q : Provider) → same_provider p q ≡ same_provider q p
same_provider_comm google google = refl

same_account_comm : (a b : ExternalAccount) → same_account a b ≡ same_account b a
same_account_comm a b =
    rw (same_provider_comm b.provider a.provider, text_eq_comm b.subject a.subject) (ground arith)

abbrev pub same_hash : Session → Session → Bool
same_hash s r = r.token_hash == s.token_hash

module _ (fold : Text → Text) where
  same_identity_comm : (i j : Identity) → same_identity fold i j ≡ same_identity fold j i
  unfolding same_identity
  same_identity_comm i j =
      rw
        (
          option_eq_comm fold j.email i.email,
          option_eq_comm same_text j.login_phone.full_number i.login_phone.full_number,
        )
        (ground arith)

  -- No two identities share an id, a public id, an email or a phone number, and phone numbers are in the E.164 format; no two
  -- external accounts are the same one or of the same identity and provider, and each is of an identity; no two sessions
  -- have the same token.
  pub record IsConsistent (db : IdentityDb) : Type 0 where
    pub identities : Unique (same_identity fold) db.identities
    pub phones :
        All (λ (i : Identity). holds_for is_e164 i.login_phone.full_number ≡ true) db.identities
    pub accounts : Unique same_account db.external_accounts
    pub owned :
        All
          (λ (a : ExternalAccount). any (has_identity a.identity_id) db.identities ≡ true)
          db.external_accounts
    pub tokens : Unique same_hash db.sessions

  -- A call that keeps the tables consistent, however it ends.
  abbrev pub Keeps : {A : Type 0} → Call A → Type 0
  Keeps m = (db : IdentityDb) → IsConsistent db → IsConsistent (m db).1

  pub bind-Keeps :
      {A B : Type 0} (m : Call A) (f : A → Call B)
      → Keeps m
      → ((a : A) → Keeps (f a))
      → Keeps (m >>= f)
  bind-Keeps {A} {B} m f hm hf db v = after (m db) (hm db v)
    where
      after :
          (r : Result IdentityError A × IdentityDb)
          → IsConsistent r.1
          → IsConsistent (continue_with f r).1
      after (ok a, t) w = hf a t w
      after (err e, t) w = w

  pub transactional-Keeps : {A : Type 0} (m : Call A) → Keeps m → Keeps (transactional m)
  transactional-Keeps {A} m hm db v = after (m db) (hm db v)
    where
      after :
          (r : Result IdentityError A × IdentityDb)
          → IsConsistent r.1
          → IsConsistent (conclude db r).1
      after (ok a, t) w = w
      after (err e, t) w = v

  pub with_tokens :
      (db : IdentityDb) (rows : List Session)
      → IsConsistent db
      → Unique same_hash rows
      → IsConsistent (record db { sessions = rows })
  with_tokens db rows v u = record {
    identities = v.identities;
    phones = v.phones;
    accounts = v.accounts;
    owned = v.owned;
    tokens = u;
  }

  owned_mono :
      (xs : List ExternalAccount) (is js : List Identity)
      → All (λ (a : ExternalAccount). any (has_identity a.identity_id) is ≡ true) xs
      → All (λ (a : ExternalAccount). any (has_identity a.identity_id) (is ++ js) ≡ true) xs
  owned_mono [] is js h = tt
  owned_mono (x ∷ xs) is js h =
      (any_mono (has_identity x.identity_id) is js h.0, owned_mono xs is js h.1)

  e164_checked :
      (n : NewIdentity) → meets_checks n ≡ true → holds_for is_e164 n.login_phone.full_number ≡ true
  unfolding meets_checks
  e164_checked n good = ground arith

  pub create_identity-Keeps :
      (n : NewIdentity) (fresh : Fresh) (now : ℕ) → Keeps (create_identity fold n fresh now)
  unfolding create_identity
  create_identity-Keeps n fresh now db v = elim (Bool-cases (meets_checks n)) [
    | inr bad ↦ rw bad v
    | inl good ↦
        elim (Bool-cases (any (same_identity fold (new_identity fold n fresh now)) db.identities)) [
          | inl taken ↦ rw (good, taken) v
          | inr free ↦
              rw (good, free)
                (record {
                  identities =
                      Unique-snoc (same_identity fold) db.identities (new_identity fold n fresh now)
                        (λ j. same_identity_comm j (new_identity fold n fresh now)) free
                        v.identities;
                  phones = All-append _ db.identities _ v.phones (e164_checked n good, tt);
                  accounts = v.accounts;
                  owned = owned_mono db.external_accounts db.identities _ v.owned;
                  tokens = v.tokens;
                })
        ]
  ]

  pub create_account-Keeps : (a : ExternalAccount) → Keeps (create_account a)
  unfolding create_account
  create_account-Keeps a db v = elim (Bool-cases (is_valid_subject a.subject)) [
    | inr bad ↦ rw bad v
    | inl good ↦ elim (Bool-cases (any (same_account a) db.external_accounts)) [
      | inl taken ↦ rw (good, taken) v
      | inr free ↦ elim (Bool-cases (any (has_identity a.identity_id) db.identities)) [
        | inr missing ↦ rw (good, free, missing) v
        | inl known ↦
            rw (good, free, known)
              (record {
                identities = v.identities;
                phones = v.phones;
                accounts =
                    Unique-snoc same_account db.external_accounts a (λ b. same_account_comm b a)
                      free v.accounts;
                owned = All-append _ db.external_accounts _ v.owned (known, tt);
                tokens = v.tokens;
              })
      ]
    ]
  ]

  pub create_outbox-Keeps : (i : Identity) (now : ℕ) → Keeps (create_outbox i now)
  unfolding create_outbox
  create_outbox-Keeps i now db v = elim (Bool-cases (any (has_id i.public_id) db.outbox)) [
    | inl taken ↦ rw taken v
    | inr free ↦ rw free (record {
      identities = v.identities;
      phones = v.phones;
      accounts = v.accounts;
      owned = v.owned;
      tokens = v.tokens;
    })
  ]

  pub create_session-Keeps : (s : Session) → Keeps (create_session s)
  unfolding create_session
  create_session-Keeps s db v = elim (Bool-cases (any (same_hash s) db.sessions)) [
    | inl taken ↦ rw taken v
    | inr free ↦ rw free (
        with_tokens db (db.sessions ++ s ∷ []) v
          (Unique-snoc same_hash db.sessions s (λ r. ground arith) free v.tokens))
  ]

  pub create_token_pair-Keeps :
      (hash : ℕ → ℕ) (i : Identity) (family : ℕ) (g : Setting)
      → Keeps (create_token_pair hash i family g)
  unfolding create_token_pair
  create_token_pair-Keeps hash i family g =
      bind-Keeps (create_session (new_session hash i family g))
        (λ u. pure (new_pair hash i family g)) (create_session-Keeps (new_session hash i family g))
        (λ u db v. v)
