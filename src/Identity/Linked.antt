-- ===== src/Identity/Linked.antt =====
-- Whose tokens a sign-in with an external provider gives (src/identity/command-handler/identity-oidc-sign-in.command-handler.ts).
use marketplace_api_v.Common.{
  ℕ, ◌≡◌, refl, sym, ap, ◌∙◌, subst, ◌⊎◌, true, ◌&&◌, Option, none, some, List, [], ◌∷◌, ◌++◌,
  arith, ◌==◌, Text, text_eq, text_eq_self, Bool-cases, inl, inr, ok, conclude_inv,
  continue_with_inv,
}
use marketplace_api_v.Identity.Store.{
  Provider, google, Identity, IdentityDb, find_by_id, ExternalAccount,
}
use marketplace_api_v.Identity.Commands.{TokenPair, Setting, create_token_pair}
use marketplace_api_v.Identity.Accounts.{
  Fresh, same_provider, find_by_email, find_by_public_id, find_by_provider_subject, create_identity,
  create_account,
}
use marketplace_api_v.Identity.Register.{welcome}
use marketplace_api_v.Identity.Attempts.{OidcIdentity}
use marketplace_api_v.Identity.Oidc.{
  external_account, new_by_email, pair_for, sign_up, link_account, link_found, link, sign_up_unless,
  sign_in_with, sign_in, enter,
}
use marketplace_api_v.Identity.Rotation.{new_session, new_pair}
use marketplace_api_v.Identity.Created.{
  with_identity, with_account, with_session, create_identity_inv, create_account_inv,
  create_token_pair-free,
}
use marketplace_api_v.Identity.Registered.{welcomed, welcome_inv}

same_provider_refl : (p : Provider) → same_provider p p ≡ true
same_provider_refl google = refl

find_by_id-id : (id : ℕ) (xs : List Identity) (i : Identity) → find_by_id id xs ≡ some i → i.id ≡ id
unfolding find_by_id
find_by_id-id id [] i h = cc
find_by_id-id id (x ∷ xs) i h = ground (arith, find_by_id-id id xs i)

find_by_public_id-public_id :
    (p : ℕ) (xs : List Identity) (i : Identity) → find_by_public_id p xs ≡ some i → i.public_id ≡ p
unfolding find_by_public_id
find_by_public_id-public_id p [] i h = cc
find_by_public_id-public_id p (x ∷ xs) i h = ground (arith, find_by_public_id-public_id p xs i)

find_by_provider_subject-append :
    (p : Provider) (s : Text) (xs : List ExternalAccount) (i : Identity)
    → find_by_provider_subject p s xs ≡ none
    → find_by_provider_subject p s (xs ++ external_account p s i ∷ [])
      ≡ some (external_account p s i)
unfolding find_by_provider_subject
find_by_provider_subject-append p s [] i h = rw (same_provider_refl p, text_eq_self s) refl
find_by_provider_subject-append p s (x ∷ xs) i h =
    elim (Bool-cases (same_provider x.provider p && text_eq x.subject s)) [
      | inl same ↦ cc (rw (find_by_provider_subject, same) at h)
      | inr other ↦
          rw (find_by_provider_subject, other)
            (find_by_provider_subject-append p s xs i (rw (find_by_provider_subject, other) at h))
    ]

-- How an identity came to be entitled to an external account: it had it before, it asked for the link, or it is new.
abbrev pub IsEntitled :
    (Text → Text) → Provider → Text → Text → Option ℕ → IdentityDb → IdentityDb → Identity → Type 0
IsEntitled fold provider subject email to db after i =
    ((a : ExternalAccount) × (find_by_provider_subject provider subject db.external_accounts
        ≡ some a)
      × (a.identity_id ≡ i.id))
    ⊎ ((to ≡ some i.public_id)
        ⊎ ((find_by_email fold email db.identities ≡ none)
            × (db.identities ++ i ∷ [] ≡ after.identities)))

-- The identity of a pair, and the external account that is its own afterwards.
pub record Entered (fold : Text → Text) (provider : Provider) (subject email : Text) (to : Option ℕ)
    (db : IdentityDb) (p : TokenPair) (after : IdentityDb) : Type 0 where
  pub identity : Identity
  pub account : ExternalAccount
  pub found : find_by_provider_subject provider subject after.external_accounts ≡ some account
  pub own : account.identity_id ≡ identity.id
  pub named : identity.public_id ≡ p.subject
  pub entitled : IsEntitled fold provider subject email to db after identity

module _ (hash : ℕ → ℕ) (fold : Text → Text) (provider : Provider) (g : Setting) where
  pair_for_inv :
      (o : Option Identity) (db after : IdentityDb) (p : TokenPair)
      → pair_for hash g o db ≡ (ok p, after)
      → (i : Identity) × (o ≡ some i)
        × (new_pair hash i g.fresh_family g ≡ p)
        × (with_session (new_session hash i g.fresh_family g) db ≡ after)
  pair_for_inv none db after p h = cc
  pair_for_inv (some i) db after p h =
      let made = create_token_pair-free hash i g.fresh_family g db after p h in
      (i, refl, made.1, made.2)

  module _ (subject email : Text) (db after : IdentityDb) (p : TokenPair) where
    returned-Entered :
        (a : ExternalAccount)
        → find_by_provider_subject provider subject db.external_accounts ≡ some a
        → pair_for hash g (find_by_id a.identity_id db.identities) db ≡ (ok p, after)
        → Entered fold provider subject email none db p after
    returned-Entered a known h =
        let (i, found, pair, state) =
          pair_for_inv (find_by_id a.identity_id db.identities) db after p h in
        let mine = sym (find_by_id-id a.identity_id db.identities i found) in
        record {
          identity = i;
          account = a;
          found =
              ap (λ (d : IdentityDb). find_by_provider_subject provider subject d.external_accounts)
                (sym state)
              ∙ known;
          own = mine;
          named = ap (λ (x : TokenPair). x.subject) pair;
          entitled = inl (a, known, mine);
        }

    signed_up-Entered :
        (fresh : Fresh)
        → find_by_provider_subject provider subject db.external_accounts ≡ none
        → (o : Option Identity) → find_by_email fold email db.identities ≡ o
        → sign_up_unless hash fold provider subject email fresh g o db ≡ (ok p, after)
        → Entered fold provider subject email none db p after
    signed_up-Entered fresh unknown (some taken) e h = cc
    signed_up-Entered fresh unknown none e h =
        let (i, t, made, rest) =
          continue_with_inv (sign_up hash provider subject g)
            (create_identity fold (new_by_email email) fresh g.now db) p after h in
        let new = create_identity_inv fold (new_by_email email) fresh g.now db t i made in
        let (u, t', opened, rest') =
          continue_with_inv (λ u. welcome hash g i)
            (create_account (external_account provider subject i) t) p after rest in
        let acc = create_account_inv (external_account provider subject i) t t' u opened in
        let met = welcome_inv hash g i t' after p rest' in
        let state : welcomed hash g i
              (with_account (external_account provider subject i) (with_identity i db))
            ≡ after =
          (λ k.
            welcomed hash g i
              (with_account (external_account provider subject i) (with_identity (sym new.2 k) db)))
          ∙ ap
              (λ (d : IdentityDb).
                welcomed hash g i (with_account (external_account provider subject i) d))
              new.3
          ∙ ap (λ (d : IdentityDb). welcomed hash g i d) acc.1
          ∙ met.3 in
        record {
          identity = i;
          account = external_account provider subject i;
          found =
              ap (λ (d : IdentityDb). find_by_provider_subject provider subject d.external_accounts)
                (sym state)
              ∙ find_by_provider_subject-append provider subject db.external_accounts i unknown;
          own = refl;
          named = ap (λ (x : TokenPair). x.subject) met.1;
          entitled = inr (inr (e, ap (λ (d : IdentityDb). d.identities) state));
        }

    link_account-Entered :
        (i : Identity)
        → (o : Option ExternalAccount)
        → find_by_provider_subject provider subject db.external_accounts ≡ o
        → link_account hash provider subject g i o db ≡ (ok p, after)
        → Entered fold provider subject email (some i.public_id) db p after
    link_account-Entered i none e h =
        let (u, t, opened, rest) =
          continue_with_inv (λ u. create_token_pair hash i g.fresh_family g)
            (create_account (external_account provider subject i) db) p after h in
        let acc = create_account_inv (external_account provider subject i) db t u opened in
        let made = create_token_pair-free hash i g.fresh_family g t after p rest in
        let state =
          ap (λ (d : IdentityDb). with_session (new_session hash i g.fresh_family g) d) acc.1
          ∙ made.2 in
        record {
          identity = i;
          account = external_account provider subject i;
          found =
              ap (λ (d : IdentityDb). find_by_provider_subject provider subject d.external_accounts)
                (sym state)
              ∙ find_by_provider_subject-append provider subject db.external_accounts i e;
          own = refl;
          named = ap (λ (x : TokenPair). x.subject) made.1;
          entitled = inr (inl refl);
        }
    link_account-Entered i (some a) e h = elim (Bool-cases (a.identity_id == i.id)) [
      | inr other ↦ cc (rw other at h)
      | inl same ↦
          let made = create_token_pair-free hash i g.fresh_family g db after p (rw same at h) in
          record {
            identity = i;
            account = a;
            found =
                ap
                  (λ (d : IdentityDb).
                    find_by_provider_subject provider subject d.external_accounts)
                  (sym made.2)
                ∙ e;
            own = ground arith;
            named = ap (λ (x : TokenPair). x.subject) made.1;
            entitled = inr (inl refl);
          }
    ]

    link_found-Entered :
        (public : ℕ) (o : Option Identity)
        → find_by_public_id public db.identities ≡ o
        → link_found hash provider subject g o db ≡ (ok p, after)
        → Entered fold provider subject email (some public) db p after
    link_found-Entered public none e h = cc
    link_found-Entered public (some i) e h =
        subst (λ (x : ℕ). Entered fold provider subject email (some x) db p after)
          (find_by_public_id-public_id public db.identities i e)
          (link_account-Entered i (find_by_provider_subject provider subject db.external_accounts)
            refl h)

    sign_in_with-Entered :
        (fresh : Fresh)
        → (o : Option ExternalAccount)
        → find_by_provider_subject provider subject db.external_accounts ≡ o
        → sign_in_with hash fold provider subject email fresh g o db ≡ (ok p, after)
        → Entered fold provider subject email none db p after
    sign_in_with-Entered fresh none e h =
        signed_up-Entered fresh e (find_by_email fold email db.identities) refl h
    sign_in_with-Entered fresh (some a) e h = returned-Entered a e h

  pub enter-Entered :
      (external : OidcIdentity) (email : Text) (to : Option ℕ) (fresh : Fresh)
      (db after : IdentityDb) (p : TokenPair)
      → enter hash fold provider external email to fresh g db ≡ (ok p, after)
      → Entered fold provider external.subject email to db p after
  unfolding sign_in link
  enter-Entered external email none fresh db after p h =
      sign_in_with-Entered external.subject email db after p fresh
        (find_by_provider_subject provider external.subject db.external_accounts) refl
        (conclude_inv db _ p after h)
  enter-Entered external email (some public) fresh db after p h =
      link_found-Entered external.subject email db after p public
        (find_by_public_id public db.identities) refl (conclude_inv db _ p after h)
