-- ===== src/Identity/Kept.antt =====
-- No command breaks what the tables of the identity service keep to (src/identity/command-handler).
use marketplace_api_v.Common.{
  ℕ, ◌≡◌, refl, sym, ap, ◌∙◌, subst, Bool, true, false, not, ◌&&◌, Option, none, some, List, [],
  ◌∷◌, ◌==◌, any, Text, Bool-cases, inl, inr, Result, ok, err, ◌>>=◌, transactional,
}
use marketplace_api_v.Identity.Store.{
  Session, Provider, Identity, ExternalAccount, IdentityDb, IdentityError, unique_violation,
  find_by_id, consume, revoke_family, is_live, is_set, revoked,
}
use marketplace_api_v.Identity.Commands.{Setting, create_token_pair}
use marketplace_api_v.Identity.Forms.{RegisterInput, LoginInput}
use marketplace_api_v.Identity.Accounts.{
  Argon, Fresh, find_by_email, find_by_public_id, find_by_provider_subject, create_identity,
  create_account, create_outbox,
}
use marketplace_api_v.Identity.Register.{
  to_new, conflict_of, welcome, admit, register, find_login, execute_register, execute_login,
}
use marketplace_api_v.Identity.Attempts.{OidcIdentity}
use marketplace_api_v.Identity.Oidc.{
  external_account, new_by_email, pair_for, sign_up, link_account, link_found, link, sign_up_unless,
  sign_in_with, sign_in, enter,
}
use marketplace_api_v.Identity.Consistent.{
  Unique, same_hash, IsConsistent, Keeps, bind-Keeps, transactional-Keeps, create_identity-Keeps,
  create_account-Keeps, create_outbox-Keeps, create_token_pair-Keeps,
}

-- The statements that update sessions keep their tokens.
any-consume :
    (p : ℕ → Bool) (h now : ℕ) (rows : List Session)
    → any (λ (r : Session). p r.token_hash) (consume h now rows).1
      ≡ any (λ (r : Session). p r.token_hash) rows
unfolding consume
any-consume p h now [] = refl
any-consume p h now (s ∷ rows) = elim (Bool-cases (s.token_hash == h)) [
  | inr other ↦ rw (other, any-consume p h now rows) refl
  | inl same ↦ elim (Bool-cases (is_live now s)) [
    | inl live ↦ rw (same, live) refl
    | inr dead ↦ rw (same, dead) refl
  ]
]

pub consume-tokens :
    (h now : ℕ) (rows : List Session)
    → Unique same_hash rows
    → Unique same_hash (consume h now rows).1
unfolding consume
consume-tokens h now [] u = tt
consume-tokens h now (s ∷ rows) u = elim (Bool-cases (s.token_hash == h)) [
  | inr other ↦
      rw other
        (any-consume (λ k. k == s.token_hash) h now rows ∙ u.0, consume-tokens h now rows u.1)
  | inl same ↦ elim (Bool-cases (is_live now s)) [
    | inl live ↦ rw (same, live) u
    | inr dead ↦ rw (same, dead) u
  ]
]

revoked-hash : (family now : ℕ) (s : Session) → (revoked family now s).token_hash ≡ s.token_hash
revoked-hash family now s =
    elim (Bool-cases ((s.family_id == family) && not (is_set s.revoked_at))) [
      | inl mine ↦ rw mine refl
      | inr other ↦ rw other refl
    ]

any-revoke_family :
    (p : ℕ → Bool) (family now : ℕ) (rows : List Session)
    → any (λ (r : Session). p r.token_hash) (revoke_family family now rows)
      ≡ any (λ (r : Session). p r.token_hash) rows
unfolding revoke_family
any-revoke_family p family now [] = refl
any-revoke_family p family now (s ∷ rows) =
    rw (revoked-hash family now s, any-revoke_family p family now rows) refl

pub revoke_family-tokens :
    (family now : ℕ) (rows : List Session)
    → Unique same_hash rows
    → Unique same_hash (revoke_family family now rows)
unfolding revoke_family
revoke_family-tokens family now [] u = tt
revoke_family-tokens family now (s ∷ rows) u = (
  ap (λ (k : ℕ). any (λ (r : Session). r.token_hash == k) (revoke_family family now rows))
        (revoked-hash family now s)
      ∙ any-revoke_family (λ k. k == s.token_hash) family now rows
      ∙ u.0,
  revoke_family-tokens family now rows u.1,
)

pub conflict_of-state :
    {A : Type 0} (r : Result IdentityError A × IdentityDb) → (conflict_of r).1 ≡ r.1
conflict_of-state (ok a, s) = refl
conflict_of-state (err unique_violation, s) = refl
conflict_of-state (err _, s) = refl

module _ (hash : ℕ → ℕ) (fold : Text → Text) where
  pub pair-Keeps :
      (i : Identity) (family : ℕ) (g : Setting) → Keeps fold (create_token_pair hash i family g)
  pair-Keeps i family g = create_token_pair-Keeps fold hash i family g

  welcome-Keeps : (g : Setting) (i : Identity) → Keeps fold (welcome hash g i)
  welcome-Keeps g i =
      bind-Keeps fold (create_outbox i g.now) (λ u. create_token_pair hash i g.fresh_family g)
        (create_outbox-Keeps fold i g.now) (λ u. pair-Keeps i g.fresh_family g)

  pub register-Keeps :
      (argon : Argon) (input : RegisterInput) (fresh : Fresh) (g : Setting)
      → Keeps fold (execute_register hash argon fold input fresh g)
  unfolding execute_register register
  register-Keeps argon input fresh g db v =
      let n = to_new input (argon.hash fresh.salt input.password) in
      subst (IsConsistent fold)
        (sym (
          conflict_of-state
            (transactional (create_identity fold n fresh g.now >>= welcome hash g) db)))
        (transactional-Keeps fold (create_identity fold n fresh g.now >>= welcome hash g)
          (bind-Keeps fold (create_identity fold n fresh g.now) (welcome hash g)
            (create_identity-Keeps fold n fresh g.now) (welcome-Keeps g))
          db v)

  admit-Keeps : (g : Setting) (b : Bool) (o : Option Identity) → Keeps fold (admit hash g b o)
  admit-Keeps g true (some i) db v = pair-Keeps i g.fresh_family g db v
  admit-Keeps g true none db v = v
  admit-Keeps g false o db v = v

  pub login-Keeps :
      (argon : Argon) (input : LoginInput) (g : Setting)
      → Keeps fold (execute_login hash argon fold input g)
  unfolding execute_login
  login-Keeps argon input g db v = admit-Keeps g _ (find_login fold input.login db) db v

  pair_for-Keeps : (g : Setting) (o : Option Identity) → Keeps fold (pair_for hash g o)
  pair_for-Keeps g none db v = v
  pair_for-Keeps g (some i) db v = pair-Keeps i g.fresh_family g db v

  module _ (provider : Provider) (subject : Text) (g : Setting) where
    sign_up-Keeps : (i : Identity) → Keeps fold (sign_up hash provider subject g i)
    sign_up-Keeps i =
        bind-Keeps fold (create_account (external_account provider subject i))
          (λ u. welcome hash g i) (create_account-Keeps fold (external_account provider subject i))
          (λ u. welcome-Keeps g i)

    sign_up_unless-Keeps :
        (email : Text) (fresh : Fresh) (o : Option Identity)
        → Keeps fold (sign_up_unless hash fold provider subject email fresh g o)
    sign_up_unless-Keeps email fresh (some i) db v = v
    sign_up_unless-Keeps email fresh none db v =
        bind-Keeps fold (create_identity fold (new_by_email email) fresh g.now)
          (sign_up hash provider subject g)
          (create_identity-Keeps fold (new_by_email email) fresh g.now) sign_up-Keeps db v

    sign_in_with-Keeps :
        (email : Text) (fresh : Fresh) (o : Option ExternalAccount)
        → Keeps fold (sign_in_with hash fold provider subject email fresh g o)
    sign_in_with-Keeps email fresh (some a) db v =
        pair_for-Keeps g (find_by_id a.identity_id db.identities) db v
    sign_in_with-Keeps email fresh none db v =
        sign_up_unless-Keeps email fresh (find_by_email fold email db.identities) db v

    link_account-Keeps :
        (i : Identity) (o : Option ExternalAccount)
        → Keeps fold (link_account hash provider subject g i o)
    link_account-Keeps i none db v =
        bind-Keeps fold (create_account (external_account provider subject i))
          (λ u. create_token_pair hash i g.fresh_family g)
          (create_account-Keeps fold (external_account provider subject i))
          (λ u. pair-Keeps i g.fresh_family g) db v
    link_account-Keeps i (some a) db v = elim (Bool-cases (a.identity_id == i.id)) [
      | inl same ↦ rw same (pair-Keeps i g.fresh_family g db v)
      | inr other ↦ rw other v
    ]

    link_found-Keeps : (o : Option Identity) → Keeps fold (link_found hash provider subject g o)
    link_found-Keeps none db v = v
    link_found-Keeps (some i) db v =
        link_account-Keeps i (find_by_provider_subject provider subject db.external_accounts) db v

  pub enter-Keeps :
      (provider : Provider) (external : OidcIdentity) (email : Text) (to : Option ℕ) (fresh : Fresh)
      (g : Setting)
      → Keeps fold (enter hash fold provider external email to fresh g)
  unfolding sign_in link
  enter-Keeps provider external email none fresh g = transactional-Keeps fold _ (λ db v.
      sign_in_with-Keeps provider external.subject g email fresh
        (find_by_provider_subject provider external.subject db.external_accounts) db v)
  enter-Keeps provider external email (some public) fresh g = transactional-Keeps fold _ (λ db v.
      link_found-Keeps provider external.subject g (find_by_public_id public db.identities) db v)
