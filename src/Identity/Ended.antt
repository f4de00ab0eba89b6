-- ===== src/Identity/Ended.antt =====
-- A family of sessions that has been revoked stays so (src/identity/command-handler).
use marketplace_api_v.Common.{
  ℕ, ◌≡◌, refl, sym, ap, subst, ◌∙◌, true, false, Option, none, some, [], ◌∷◌, ◌==◌, ==_refl, All,
  All-append, Bool-cases, inl, inr, Result, ok, err, conclude,
}
use marketplace_api_v.Identity.Store.{
  Session, IdentityDb, IdentityError, is_set, find_by_token_hash, consume,
}
use marketplace_api_v.Identity.Commands.{
  TokenPair, Setting, Auth, after_consume, rotate_presented, rotate, revoke, detect_reuse,
  finish_refresh, execute_refresh, end_session, execute_logout,
}
use marketplace_api_v.Identity.Rows.{
  IsRevoked, revoke_family-IsRevoked, revoke_family-keeps, consume-keeps, consume-family,
  consume-found,
}
use marketplace_api_v.Identity.Rotation.{
  Rotated, after_consume-none, after_consume_inv, execute_refresh_inv,
}
use marketplace_api_v.Identity.Revoked.{IsErr, refuse_deny, deny_family-db}

module _ (hash : ℕ → ℕ) (family : ℕ) where
  abbrev pub IsEnded : IdentityDb → Type 0
  IsEnded db = All (IsRevoked family) db.sessions

  Rotated-IsEnded :
      (h now : ℕ) (db : IdentityDb) (p : TokenPair) (after : IdentityDb)
      → IsEnded db
      → Rotated h now db p after
      → IsEnded after
  Rotated-IsEnded h now db p after ended r =
      let outside = consume-family family h now db.sessions r.session r.rows ended r.consumed in
      let kept : All (IsRevoked family) r.rows =
        subst (All (IsRevoked family)) (ap (λ x. x.1) r.consumed)
          (consume-keeps family h now db.sessions ended) in
      subst (All (IsRevoked family)) (sym r.sessions) (
        All-append (IsRevoked family) r.rows (r.added ∷ []) kept (
          λ inside. cc (sym outside ∙ ap (λ (f : ℕ). f == family) (sym r.added_family) ∙ inside),
          tt,
        ))

  consumed-IsEnded :
      (h : ℕ) (g : Setting) (db : IdentityDb)
      (r : Result IdentityError (Option TokenPair) × IdentityDb)
      → after_consume hash g (consume h g.now db.sessions) db ≡ r
      → IsEnded db
      → IsEnded (conclude db r).1
  consumed-IsEnded h g db (err x, after) e ended = ended
  consumed-IsEnded h g db (ok (some p), after) e ended =
      Rotated-IsEnded h g.now db p after ended
        (after_consume_inv hash h g (consume h g.now db.sessions) db after p refl e)
  consumed-IsEnded h g db (ok none, after) e ended =
      subst (All (IsRevoked family))
        (sym (after_consume-none hash g (consume h g.now db.sessions) db after e))
        (consume-keeps family h g.now db.sessions ended)

  rotate-IsEnded :
      (h : ℕ) (g : Setting) (db : IdentityDb) → IsEnded db → IsEnded (rotate hash h g db).1
  unfolding rotate
  rotate-IsEnded h g db ended = presented (find_by_token_hash h db.sessions)
    where
      presented : (o : Option Session) → IsEnded (conclude db (rotate_presented hash h g o db)).1
      presented none = ended
      presented (some s) =
          consumed-IsEnded h g db (after_consume hash g (consume h g.now db.sessions) db) refl ended

  detect_reuse-IsEnded :
      (g : Setting) (a : Auth) (o : Option Session)
      → IsEnded a.db
      → IsEnded (detect_reuse hash g a o).1.db
  detect_reuse-IsEnded g a none ended = ended
  detect_reuse-IsEnded g a (some s) ended = elim (Bool-cases (is_set s.used_at)) [
    | inr unused ↦ rw unused ended
    | inl reused ↦ rw reused (
        subst IsEnded (sym (refuse_deny hash s.family_id g (revoke hash s.family_id g a)).1)
          (revoke_family-keeps family s.family_id g.now a.db.sessions ended))
  ]

  finish-IsEnded :
      (h : ℕ) (g : Setting) (a : Auth) (r : Result IdentityError (Option TokenPair) × IdentityDb)
      → IsEnded r.1
      → IsEnded (finish_refresh hash h g a r).1.db
  finish-IsEnded h g a (ok (some p), db) ended = ended
  finish-IsEnded h g a (ok none, db) ended =
      detect_reuse-IsEnded g (record a { db = db }) (find_by_token_hash h db.sessions) ended
  finish-IsEnded h g a (err e, db) ended = ended

  refresh-IsEnded :
      (token : ℕ) (g : Setting) (a : Auth)
      → IsEnded a.db
      → IsEnded (execute_refresh hash token g a).1.db
  unfolding execute_refresh
  refresh-IsEnded token g a ended =
      finish-IsEnded (hash token) g a (rotate hash (hash token) g a.db)
        (rotate-IsEnded (hash token) g a.db ended)

  end_session-IsEnded :
      (g : Setting) (a : Auth) (o : Option Session)
      → IsEnded a.db
      → IsEnded (end_session hash g a o).1.db
  end_session-IsEnded g a none ended = ended
  end_session-IsEnded g a (some s) ended =
      subst IsEnded (sym (deny_family-db hash s.family_id g (revoke hash s.family_id g a)))
        (revoke_family-keeps family s.family_id g.now a.db.sessions ended)

  refused_case :
      (token : ℕ) (g : Setting) (a : Auth) (s : Session)
      → IsEnded a.db
      → find_by_token_hash (hash token) a.db.sessions ≡ some s
      → s.family_id ≡ family
      → (r : Result IdentityError TokenPair × Auth) → execute_refresh hash token g a ≡ r
      → IsErr r.0
  refused_case token g a s ended found same (err e, after) h = tt
  refused_case token g a s ended found same (ok p, after) h =
      let r = execute_refresh_inv hash token g a after p h in
      let outside =
        consume-family family (hash token) g.now a.db.sessions r.session r.rows ended r.consumed in
      let mine : r.session ≡ s =
        cc (found, consume-found (hash token) g.now a.db.sessions r.session r.rows r.consumed) in
      absurd (
        contradiction (
          sym outside
          ∙ ap (λ (x : Session). x.family_id == family) mine
          ∙ ap (λ (f : ℕ). f == family) same
          ∙ ==_refl family))
    where
      contradiction : false ≡ true → ⊥
      contradiction e = cc

  -- No token of a family whose sessions are all revoked is ever refreshed: presenting it throws.
  pub execute_refresh-refused :
      (token : ℕ) (g : Setting) (a : Auth) (s : Session)
      → All (IsRevoked family) a.db.sessions
      → find_by_token_hash (hash token) a.db.sessions ≡ some s
      → s.family_id ≡ family
      → IsErr (execute_refresh hash token g a).0
  execute_refresh-refused token g a s ended found same =
      refused_case token g a s ended found same (execute_refresh hash token g a) refl

  -- A family whose sessions are all revoked stays so: no refresh and no logout, with whatever token and at whatever time,
  -- brings one of its sessions back or adds a live one to it.
  pub ended_family :
      (token : ℕ) (g : Setting) (a : Auth)
      → All (IsRevoked family) a.db.sessions
      → All (IsRevoked family) (execute_refresh hash token g a).1.db.sessions
        × All (IsRevoked family) (execute_logout hash token g a).1.db.sessions
  unfolding execute_logout
  ended_family token g a ended = (
    refresh-IsEnded token g a ended,
    end_session-IsEnded g a (find_by_token_hash (hash token) a.db.sessions) ended,
  )

-- A logout with a known token revokes every session of its family, whether or not Redis takes the family's denial.
pub execute_logout-IsRevoked :
    (hash : ℕ → ℕ) (token : ℕ) (g : Setting) (a : Auth) (s : Session)
    → find_by_token_hash (hash token) a.db.sessions ≡ some s
    → All (IsRevoked s.family_id) (execute_logout hash token g a).1.db.sessions
unfolding execute_logout
execute_logout-IsRevoked hash token g a s found = rw found (
    subst (λ (d : IdentityDb). All (IsRevoked s.family_id) d.sessions)
      (sym (deny_family-db hash s.family_id g (revoke hash s.family_id g a)))
      (revoke_family-IsRevoked s.family_id g.now a.db.sessions))
