-- ===== src/Identity/Rotation.antt =====
-- A refresh token works once (src/identity/command-handler/identity-refresh.command-handler.ts).
use marketplace_api_v.Common.{
  ℕ, ◌+◌, ◌/◌, ◌≡◌, refl, sym, ap, subst, ◌∙◌, Option, none, some, List, [], ◌∷◌, ◌++◌, ◌==◌, any,
  Bool-cases, inl, inr, Result, ok, err, pure, continue_with_inv, conclude_inv,
}
use marketplace_api_v.Identity.Store.{
  Session, Identity, IdentityDb, IdentityError, is_set, find_by_id, find_by_token_hash, consume,
  create_session,
}
use marketplace_api_v.Identity.Commands.{
  TokenPair, refresh_token_ttl, access_token_ttl, Setting, Auth, create_token_pair, found_pair,
  issue, after_consume, rotate_presented, rotate, deny_family, detect_reuse, finish_refresh,
  execute_refresh,
}

-- What a rotation that gives a pair has done: it consumed a session and added one to its family.
pub record Rotated (h now : ℕ) (db : IdentityDb) (pair : TokenPair) (after : IdentityDb)
    : Type 0 where
  pub session : Session
  pub rows : List Session
  pub added : Session
  pub consumed : consume h now db.sessions ≡ (some session, rows)
  pub sessions : after.sessions ≡ rows ++ added ∷ []
  pub family : pair.family_id ≡ session.family_id
  pub added_family : added.family_id ≡ session.family_id

as_rotated : Result IdentityError TokenPair → Result IdentityError (Option TokenPair)
as_rotated (ok q) = ok (some q)
as_rotated (err x) = err x

create_session_inv :
    (s : Session) (db after : IdentityDb) (u : Unit {0})
    → create_session s db ≡ (ok u, after)
    → after.sessions ≡ db.sessions ++ s ∷ []
unfolding create_session
create_session_inv s db after u h =
    elim (Bool-cases (any (λ (r : Session). r.token_hash == s.token_hash) db.sessions)) [
      | inl taken ↦ cc (rw (create_session, taken) at h)
      | inr free ↦
          let e : ◌≡◌ {A = Result IdentityError (Unit {0}) × IdentityDb}
              (ok tt, record db { sessions = db.sessions ++ s ∷ [] }) (ok u, after) =
            rw (create_session, free) at h in
          ap (λ (r : Result IdentityError (Unit {0}) × IdentityDb). r.1.sessions) (sym e)
    ]

module _ (hash : ℕ → ℕ) where
  abbrev pub new_session : Identity → ℕ → Setting → Session
  new_session i family g = record {
    identity_id = i.id;
    family_id = family;
    token_hash = hash g.fresh_token;
    expires_at = g.now + refresh_token_ttl;
    used_at = none;
    revoked_at = none;
  }

  abbrev pub new_pair : Identity → ℕ → Setting → TokenPair
  new_pair i family g = record {
    refresh_token = g.fresh_token;
    subject = i.public_id;
    family_id = family;
    token_id = g.fresh_token_id;
    role = i.role;
    email = i.email;
    phone_number = i.login_phone.full_number;
    issued_at = g.now / 1000;
    expires_at = g.now / 1000 + access_token_ttl;
  }

  create_token_pair_inv :
      (i : Identity) (family : ℕ) (g : Setting) (db after : IdentityDb) (p : TokenPair)
      → create_token_pair hash i family g db ≡ (ok p, after)
      → (after.sessions ≡ db.sessions ++ new_session i family g ∷ []) × (p.family_id ≡ family)
  unfolding create_token_pair
  create_token_pair_inv i family g db after p h =
      let (u, t, created, rest) =
        continue_with_inv (λ u. pure {S = IdentityDb} {E = IdentityError} (new_pair i family g))
          (create_session (new_session i family g) db) p after h in
      let same_db : t ≡ after = ap (λ r. r.1) rest in
      (
        subst (λ (x : IdentityDb). x.sessions ≡ db.sessions ++ new_session i family g ∷ []) same_db
            (create_session_inv (new_session i family g) db t u created),
        family_of p (ap (λ r. r.0) rest),
      )
    where
      family_of :
          (q : TokenPair)
          → ◌≡◌ {A = Result IdentityError TokenPair} (ok (new_pair i family g)) (ok q)
          → q.family_id ≡ family
      family_of q e = cc (e)

  issue_inv :
      (s : Session) (g : Setting) (i : Option Identity) (db after : IdentityDb) (p : TokenPair)
      → issue hash s g i db ≡ (ok (some p), after)
      → (added : Session) × (after.sessions ≡ db.sessions ++ added ∷ [])
        × (p.family_id ≡ s.family_id)
        × (added.family_id ≡ s.family_id)
  issue_inv s g none db after p h = cc
  issue_inv s g (some i) db after p h =
      let (q, t, created, rest) =
        continue_with_inv (found_pair hash) (create_token_pair hash i s.family_id g db) (some p)
          after h in
      let parts = create_token_pair_inv i s.family_id g db t q created in
      (
        new_session i s.family_id g,
        subst (λ (x : IdentityDb). x.sessions ≡ db.sessions ++ new_session i s.family_id g ∷ [])
            (ap (λ r. r.1) rest) parts.0,
        same_family q (ap (λ r. r.0) rest) ∙ parts.1,
        refl,
      )
    where
      same_family :
          (q : TokenPair)
          → ◌≡◌ {A = Result IdentityError (Option TokenPair)} (ok (some q)) (ok (some p))
          → p.family_id ≡ q.family_id
      same_family q e = cc (e)

  pub after_consume_inv :
      (h : ℕ) (g : Setting) (r : Option Session × List Session) (db after : IdentityDb)
      (p : TokenPair)
      → consume h g.now db.sessions ≡ r
      → after_consume hash g r db ≡ (ok (some p), after)
      → Rotated h g.now db p after
  after_consume_inv h g (none, rows) db after p e k = cc
  after_consume_inv h g (some s, rows) db after p e k =
      let (added, sessions, family, added_family) =
        issue_inv s g (find_by_id s.identity_id db.identities) (record db { sessions = rows }) after
          p k in
      record {
        session = s;
        rows = rows;
        added = added;
        consumed = e;
        sessions = sessions;
        family = family;
        added_family = added_family;
      }

  pub after_consume-none :
      (g : Setting) (r : Option Session × List Session) (db after : IdentityDb)
      → after_consume hash g r db ≡ (ok none, after)
      → after.sessions ≡ r.1
  after_consume-none g (none, rows) db after k =
      ap (λ (r : Result IdentityError (Option TokenPair) × IdentityDb). r.1.sessions) (sym k)
  after_consume-none g (some s, rows) db after k = issued (find_by_id s.identity_id db.identities) k
    where
      issued :
          (i : Option Identity)
          → issue hash s g i (record db { sessions = rows }) ≡ (ok none, after)
          → after.sessions ≡ rows
      issued none q =
          ap (λ (r : Result IdentityError (Option TokenPair) × IdentityDb). r.1.sessions) (sym q)
      issued (some i) q =
          let (p, t, created, rest) =
            continue_with_inv (found_pair hash)
              (create_token_pair hash i s.family_id g (record db { sessions = rows })) none after
              q in
          cc (ap (λ r. r.0) rest)

  pub rotate_inv :
      (h : ℕ) (g : Setting) (db after : IdentityDb) (p : TokenPair)
      → rotate hash h g db ≡ (ok (some p), after)
      → Rotated h g.now db p after
  unfolding rotate
  rotate_inv h g db after p e = presented (find_by_token_hash h db.sessions) (
      conclude_inv db (rotate_presented hash h g (find_by_token_hash h db.sessions) db) (some p)
        after e)
    where
      presented :
          (o : Option Session)
          → rotate_presented hash h g o db ≡ (ok (some p), after)
          → Rotated h g.now db p after
      presented none k = cc
      presented (some s) k = after_consume_inv h g (consume h g.now db.sessions) db after p refl k

  detect_reuse-err :
      (g : Setting) (a after : Auth) (o : Option Session) (p : TokenPair)
      → (x : detect_reuse hash g a o ≡ (ok p, after)) → ⊥
  unfolding deny_family
  detect_reuse-err g a after none p x = cc
  detect_reuse-err g a after (some s) p x = elim (Bool-cases (is_set s.used_at)) [
    | inr unused ↦ cc (rw unused at x)
    | inl reused ↦ elim (Bool-cases g.redis_answers) [
      | inl up ↦ cc (rw (reused, up) at x)
      | inr down ↦ elim (Bool-cases g.fail_open) [
        | inl lenient ↦ cc (rw (reused, down, lenient) at x)
        | inr strict ↦ cc (rw (reused, down, strict) at x)
      ]
    ]
  ]

  pub execute_refresh_inv :
      (token : ℕ) (g : Setting) (a after : Auth) (p : TokenPair)
      → execute_refresh hash token g a ≡ (ok p, after)
      → Rotated (hash token) g.now a.db p after.db
  unfolding execute_refresh as_rotated
  execute_refresh_inv token g a after p h = ended (rotate hash (hash token) g a.db) refl h
    where
      ended :
          (r : Result IdentityError (Option TokenPair) × IdentityDb)
          → rotate hash (hash token) g a.db ≡ r
          → finish_refresh hash (hash token) g a r ≡ (ok p, after)
          → Rotated (hash token) g.now a.db p after.db
      ended (ok (some q), db) e k =
          rotate_inv (hash token) g a.db after.db p
            (e ∙ ap (λ (t : Result IdentityError TokenPair × Auth). (as_rotated t.0, t.1.db)) k)
      ended (ok none, db) e k = absurd (
          detect_reuse-err g (record a { db = db }) after
            (find_by_token_hash (hash token) db.sessions) p k)
      ended (err x, db) e k = cc
