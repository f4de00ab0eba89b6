-- ===== src/Identity/Revoked.antt =====
-- What the detection of reuse and a logout leave (src/identity/command-handler).
use marketplace_api_v.Common.{
  ℕ, ◌≡◌, refl, sym, ap, subst, ◌∙◌, none, some, List, [], ◌∷◌, All, Bool-cases, if◌then◌else◌, inl,
  inr, Result, ok, err,
}
use marketplace_api_v.Identity.Store.{
  Session, IdentityDb, IdentityError, find_by_token_hash, used, consume,
}
use marketplace_api_v.Identity.Commands.{
  TokenPair, Setting, Auth, denied, rotate, deny_family, revoke, refuse, execute_refresh,
}
use marketplace_api_v.Identity.Rows.{
  IsRevoked, consume-Consumed, find-append, consume-append, revoke_family-IsRevoked,
}
use marketplace_api_v.Identity.Rotation.{execute_refresh_inv}

abbrev pub IsErr : {A : Type 0} → Result IdentityError A → Type 0
IsErr (ok a) = ⊥
IsErr (err e) = Unit {0}

module _ (hash : ℕ → ℕ) where
  -- Whatever Redis does, a refusal throws, and it leaves the database as it was.
  pub refuse_deny :
      (family : ℕ) (g : Setting) (a : Auth)
      → IsErr (refuse hash (deny_family hash family g a)).0
        × ((refuse hash (deny_family hash family g a)).1.db ≡ a.db)
  unfolding deny_family
  refuse_deny family g a = elim (Bool-cases g.redis_answers) [
    | inl up ↦ rw up (tt, refl)
    | inr down ↦ elim (Bool-cases g.fail_open) [
      | inl lenient ↦ rw (down, lenient) (tt, late)
      | inr strict ↦ rw (down, strict) (tt, late)
    ]
  ]
    where
      late : (if g.redis_applies then denied hash family g a else a).db ≡ a.db
      late = elim (Bool-cases g.redis_applies) [ inl e ↦ rw e refl | inr e ↦ rw e refl ]

  pub deny_family-db :
      (family : ℕ) (g : Setting) (a : Auth) → (deny_family hash family g a).1.db ≡ a.db
  unfolding deny_family
  deny_family-db family g a = elim (Bool-cases g.redis_answers) [
    | inl up ↦ rw up refl
    | inr down ↦ elim (Bool-cases g.fail_open) [
      | inl lenient ↦ rw (down, lenient) late
      | inr strict ↦ rw (down, strict) late
    ]
  ]
    where
      late : (if g.redis_applies then denied hash family g a else a).db ≡ a.db
      late = elim (Bool-cases g.redis_applies) [ inl e ↦ rw e refl | inr e ↦ rw e refl ]

  -- A token that is spent is refused, and its family revoked.
  spent_refused :
      (token : ℕ) (g : Setting) (a : Auth) (s : Session) (now : ℕ)
      → find_by_token_hash (hash token) a.db.sessions ≡ some (used now s)
      → consume (hash token) g.now a.db.sessions ≡ (none, a.db.sessions)
      → IsErr (execute_refresh hash token g a).0
        × All (IsRevoked s.family_id) (execute_refresh hash token g a).1.db.sessions
  unfolding execute_refresh rotate
  spent_refused token g a s now found spent =
      rw (found, spent, found)
        (
          (refuse_deny s.family_id g (revoke hash s.family_id g a)).0,
          subst (λ (d : IdentityDb). All (IsRevoked s.family_id) d.sessions)
              (sym (refuse_deny s.family_id g (revoke hash s.family_id g a)).1)
              (revoke_family-IsRevoked s.family_id g.now a.db.sessions),
        )

  -- A refresh token works once. When it has given a pair, presenting it again throws, whenever it is and whatever Redis
  -- answers, and leaves every session of its family revoked, the one of the new pair included.
  pub execute_refresh-again :
      (token : ℕ) (g later : Setting) (a after : Auth) (p : TokenPair)
      → execute_refresh hash token g a ≡ (ok p, after)
      → IsErr (execute_refresh hash token later after).0
        × All (IsRevoked p.family_id) (execute_refresh hash token later after).1.db.sessions
  execute_refresh-again token g later a after p h =
      let r = execute_refresh_inv hash token g a after p h in
      let c = consume-Consumed (hash token) g.now a.db.sessions r.session r.rows r.consumed in
      let found = find-append (hash token) r.rows (r.added ∷ []) (used g.now r.session) c.found in
      let spent =
        consume-append (hash token) later.now r.rows (r.added ∷ []) (used g.now r.session) c.found
          (c.spent later.now) in
      subst
        (λ f.
          IsErr (execute_refresh hash token later after).0
          × All (IsRevoked f) (execute_refresh hash token later after).1.db.sessions)
        (sym r.family)
        (spent_refused token later after r.session g.now
          (ap (find_by_token_hash (hash token)) r.sessions ∙ found)
          (ap (consume (hash token) later.now) r.sessions
            ∙ spent
            ∙ ap (λ (l : List Session). (none, l)) (sym r.sessions)))
