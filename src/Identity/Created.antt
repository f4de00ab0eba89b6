-- ===== src/Identity/Created.antt =====
-- What the statements of src/identity/repository that insert a row have done when they return.
use marketplace_api_v.Common.{
  ℕ, ◌≡◌, refl, ◌∙◌, Bool, true, false, [], ◌∷◌, ◌++◌, ◌==◌, any, Text, Bool-cases, inl, inr, ok,
  ok_pair_inv, pure, continue_with_inv,
}
use marketplace_api_v.Outbox.Store.{Row, new_row}
use marketplace_api_v.Identity.Store.{
  Session, NewIdentity, Identity, ExternalAccount, IdentityRegistered, IdentityDb, IdentityError,
  create_session,
}
use marketplace_api_v.Identity.Commands.{TokenPair, Setting, create_token_pair}
use marketplace_api_v.Identity.Forms.{meets_checks}
use marketplace_api_v.Identity.Accounts.{
  Fresh, is_valid_subject, has_identity, same_account, create_account, to_identity_registered,
  create_outbox, same_identity, new_identity, create_identity,
}
use marketplace_api_v.Identity.Rotation.{new_session, new_pair}

abbrev pub with_identity : Identity → IdentityDb → IdentityDb
with_identity i db = record db { identities = db.identities ++ i ∷ [] }

abbrev pub with_account : ExternalAccount → IdentityDb → IdentityDb
with_account a db = record db { external_accounts = db.external_accounts ++ a ∷ [] }

abbrev pub with_event : Row IdentityRegistered → IdentityDb → IdentityDb
with_event r db = record db { outbox = db.outbox ++ r ∷ [] }

abbrev pub with_session : Session → IdentityDb → IdentityDb
with_session s db = record db { sessions = db.sessions ++ s ∷ [] }

abbrev pub has_hash : ℕ → Session → Bool
has_hash h r = r.token_hash == h

abbrev pub event_of : Identity → ℕ → Row IdentityRegistered
event_of i now = new_row i.public_id now (to_identity_registered i)

abbrev pub has_id : ℕ → Row IdentityRegistered → Bool
has_id id r = r.id == id

module _ (fold : Text → Text) where
  pub create_identity_inv :
      (n : NewIdentity) (fresh : Fresh) (now : ℕ) (db after : IdentityDb) (i : Identity)
      → create_identity fold n fresh now db ≡ (ok i, after)
      → (meets_checks n ≡ true)
        × (any (same_identity fold (new_identity fold n fresh now)) db.identities ≡ false)
        × (new_identity fold n fresh now ≡ i)
        × (with_identity (new_identity fold n fresh now) db ≡ after)
  unfolding create_identity
  create_identity_inv n fresh now db after i h = elim (Bool-cases (meets_checks n)) [
    | inr bad ↦ cc (rw (create_identity, bad) at h)
    | inl good ↦
        elim (Bool-cases (any (same_identity fold (new_identity fold n fresh now)) db.identities)) [
          | inl taken ↦ cc (rw (create_identity, good, taken) at h)
          | inr free ↦
              let parts =
                ok_pair_inv (new_identity fold n fresh now) i
                  (with_identity (new_identity fold n fresh now) db) after
                  (rw (create_identity, good, free) at h) in
              (good, free, parts.0, parts.1)
        ]
  ]

  pub create_identity-ok :
      (n : NewIdentity) (fresh : Fresh) (now : ℕ) (db : IdentityDb)
      → meets_checks n ≡ true
      → any (same_identity fold (new_identity fold n fresh now)) db.identities ≡ false
      → create_identity fold n fresh now db
        ≡ (ok (new_identity fold n fresh now), with_identity (new_identity fold n fresh now) db)
  unfolding create_identity
  create_identity-ok n fresh now db good free = rw (good, free) refl

pub create_account_inv :
    (a : ExternalAccount) (db after : IdentityDb) (u : Unit {0})
    → create_account a db ≡ (ok u, after)
    → (any (same_account a) db.external_accounts ≡ false) × (with_account a db ≡ after)
unfolding create_account
create_account_inv a db after u h = elim (Bool-cases (is_valid_subject a.subject)) [
  | inr bad ↦ cc (rw (create_account, bad) at h)
  | inl good ↦ elim (Bool-cases (any (same_account a) db.external_accounts)) [
    | inl taken ↦ cc (rw (create_account, good, taken) at h)
    | inr free ↦ elim (Bool-cases (any (has_identity a.identity_id) db.identities)) [
      | inr missing ↦ cc (rw (create_account, good, free, missing) at h)
      | inl known ↦ (
        free,
        (ok_pair_inv tt u (with_account a db) after
            (rw (create_account, good, free, known) at h)).1,
      )
    ]
  ]
]

pub create_outbox_inv :
    (i : Identity) (now : ℕ) (db after : IdentityDb) (u : Unit {0})
    → create_outbox i now db ≡ (ok u, after)
    → (any (has_id i.public_id) db.outbox ≡ false) × (with_event (event_of i now) db ≡ after)
unfolding create_outbox
create_outbox_inv i now db after u h = elim (Bool-cases (any (has_id i.public_id) db.outbox)) [
  | inl taken ↦ cc (rw (create_outbox, taken) at h)
  | inr free ↦ (
    free,
    (ok_pair_inv tt u (with_event (event_of i now) db) after (rw (create_outbox, free) at h)).1,
  )
]

create_session-free :
    (s : Session) (db after : IdentityDb) (u : Unit {0})
    → create_session s db ≡ (ok u, after)
    → (any (has_hash s.token_hash) db.sessions ≡ false) × (with_session s db ≡ after)
unfolding create_session
create_session-free s db after u h = elim (Bool-cases (any (has_hash s.token_hash) db.sessions)) [
  | inl taken ↦ cc (rw (create_session, taken) at h)
  | inr free ↦
      (free, (ok_pair_inv tt u (with_session s db) after (rw (create_session, free) at h)).1)
]

module _ (hash : ℕ → ℕ) where
  pub create_token_pair-free :
      (i : Identity) (family : ℕ) (g : Setting) (db after : IdentityDb) (p : TokenPair)
      → create_token_pair hash i family g db ≡ (ok p, after)
      → (any (has_hash (hash g.fresh_token)) db.sessions ≡ false)
        × (new_pair hash i family g ≡ p)
        × (with_session (new_session hash i family g) db ≡ after)
  unfolding create_token_pair
  create_token_pair-free i family g db after p h =
      let (u, t, created, rest) =
        continue_with_inv
          (λ u. pure {S = IdentityDb} {E = IdentityError} (new_pair hash i family g))
          (create_session (new_session hash i family g) db) p after h in
      let made = create_session-free (new_session hash i family g) db t u created in
      let parts = ok_pair_inv (new_pair hash i family g) p t after rest in
      (made.0, parts.0, made.1 ∙ parts.1)

  pub create_token_pair-ok :
      (i : Identity) (family : ℕ) (g : Setting) (db : IdentityDb)
      → any (has_hash (hash g.fresh_token)) db.sessions ≡ false
      → create_token_pair hash i family g db
        ≡ (ok (new_pair hash i family g), with_session (new_session hash i family g) db)
  unfolding create_token_pair create_session
  create_token_pair-ok i family g db free = rw free refl
