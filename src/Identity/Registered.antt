-- ===== src/Identity/Registered.antt =====
-- What a registration that returns has written (src/identity/command-handler/identity-register.command-handler.ts).
use marketplace_api_v.Common.{
  ℕ, ◌≡◌, sym, ap, ◌∙◌, subst, true, false, any, Text, Result, ok, err, conclude_inv,
  continue_with_inv,
}
use marketplace_api_v.Identity.Store.{Identity, IdentityDb, IdentityError, unique_violation}
use marketplace_api_v.Identity.Commands.{TokenPair, Setting, create_token_pair}
use marketplace_api_v.Identity.Forms.{RegisterInput, meets_checks}
use marketplace_api_v.Identity.Accounts.{
  Argon, Fresh, same_identity, new_identity, create_identity, create_outbox,
}
use marketplace_api_v.Identity.Register.{to_new, conflict_of, welcome, register, execute_register}
use marketplace_api_v.Identity.Rotation.{new_session, new_pair}
use marketplace_api_v.Identity.Created.{
  with_identity, with_event, with_session, event_of, has_hash, has_id, create_identity_inv,
  create_outbox_inv, create_token_pair-free,
}

pub conflict_of_inv :
    {A S : Type 0} (r : Result IdentityError A × S) (a : A) (s : S)
    → conflict_of r ≡ (ok a, s)
    → r ≡ (ok a, s)
conflict_of_inv (ok b, t) a s h = h
conflict_of_inv (err unique_violation, t) a s h = cc
conflict_of_inv (err _, t) a s h = cc

module _ (hash : ℕ → ℕ) (g : Setting) where
  -- The event and the session of an identity that was welcomed.
  abbrev pub welcomed : Identity → IdentityDb → IdentityDb
  welcomed i db =
      with_session (new_session hash i g.fresh_family g) (with_event (event_of i g.now) db)

  pub welcome_inv :
      (i : Identity) (db after : IdentityDb) (p : TokenPair)
      → welcome hash g i db ≡ (ok p, after)
      → (any (has_id i.public_id) db.outbox ≡ false)
        × (new_pair hash i g.fresh_family g ≡ p)
        × (any (has_hash (hash g.fresh_token)) db.sessions ≡ false)
        × (welcomed i db ≡ after)
  welcome_inv i db after p h =
      let (u, t, made, rest) =
        continue_with_inv (λ u. create_token_pair hash i g.fresh_family g)
          (create_outbox i g.now db) p after h in
      let told = create_outbox_inv i g.now db t u made in
      let paired = create_token_pair-free hash i g.fresh_family g t after p rest in
      (
        told.0,
        paired.1,
        subst (λ (d : IdentityDb). any (has_hash (hash g.fresh_token)) d.sessions ≡ false)
            (sym told.1) paired.0,
        ap (λ (d : IdentityDb). with_session (new_session hash i g.fresh_family g) d) told.1
            ∙ paired.2,
      )

module _ (hash : ℕ → ℕ) (argon : Argon) (fold : Text → Text) where
  abbrev pub registered : RegisterInput → Fresh → Setting → Identity
  registered input fresh g =
      new_identity fold (to_new input (argon.hash fresh.salt input.password)) fresh g.now

  -- A registration that returns has met the checks, found no one with its email, phone or ids, and written the identity, its event
  -- and its first session.
  pub execute_register_inv :
      (input : RegisterInput) (fresh : Fresh) (g : Setting) (db after : IdentityDb) (p : TokenPair)
      → execute_register hash argon fold input fresh g db ≡ (ok p, after)
      → let i = registered input fresh g in
        (meets_checks (to_new input (argon.hash fresh.salt input.password)) ≡ true)
        × (any (same_identity fold i) db.identities ≡ false)
        × (any (has_id i.public_id) db.outbox ≡ false)
        × (new_pair hash i g.fresh_family g ≡ p)
        × (welcomed hash g i (with_identity i db) ≡ after)
  unfolding execute_register register
  execute_register_inv input fresh g db after p h =
      let done =
        conflict_of_inv (register hash fold input (argon.hash fresh.salt input.password) fresh g db)
          p after h in
      let n = to_new input (argon.hash fresh.salt input.password) in
      let (i, t, made, rest) =
        continue_with_inv (welcome hash g) (create_identity fold n fresh g.now db) p after
          (conclude_inv db _ p after done) in
      let new = create_identity_inv fold n fresh g.now db t i made in
      let met = welcome_inv hash g i t after p rest in
      (
        new.0,
        new.1,
        subst (λ (x : IdentityDb × Identity). any (has_id x.1.public_id) x.0.outbox ≡ false)
            (λ k. (sym new.3 k, sym new.2 k)) met.0,
        ap (λ (x : Identity). new_pair hash x g.fresh_family g) new.2 ∙ met.1,
        (λ k. welcomed hash g (new.2 k) (new.3 k)) ∙ met.3,
      )
