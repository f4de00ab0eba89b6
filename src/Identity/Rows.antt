-- ===== src/Identity/Rows.antt =====
-- What `consume` and `revokeFamily` leave in the table (src/identity/repository/identity-session.repository.ts).
use marketplace_api_v.Common.{
  ℕ, ◌≡◌, refl, ap, subst, true, false, Option, none, some, List, [], ◌∷◌, ◌++◌, arith, ◌==◌, All,
  Bool-cases, inl, inr,
}
use marketplace_api_v.Identity.Store.{
  Session, is_set, find_by_token_hash, is_live, used, consume, revoke_family,
}

-- A session is revoked if it is of the family.
abbrev pub IsRevoked : ℕ → Session → Type 0
IsRevoked family s = (s.family_id == family) ≡ true → is_set s.revoked_at ≡ true

-- A row that was consumed is found as used, and can be consumed at no later call.
pub record Consumed (hash now : ℕ) (s : Session) (rows : List Session) : Type 0 where
  pub found : find_by_token_hash hash rows ≡ some (used now s)
  pub spent : (later : ℕ) → consume hash later rows ≡ (none, rows)

first-Consumed :
    (hash now : ℕ) (x : Session) (before : List Session)
    → (x.token_hash == hash) ≡ true
    → Consumed hash now x (used now x ∷ before)
unfolding consume find_by_token_hash
first-Consumed hash now x before same = record {
  found = rw same refl;
  spent = λ later. rw same refl;
}

later-Consumed :
    (hash now : ℕ) (x s : Session) (rest : List Session)
    → (x.token_hash == hash) ≡ false
    → Consumed hash now s rest
    → Consumed hash now s (x ∷ rest)
unfolding consume find_by_token_hash
later-Consumed hash now x s rest other c = record {
  found = rw other c.found;
  spent = λ later. rw (other, c.spent later) refl;
}

pub consume-Consumed :
    (hash now : ℕ) (before : List Session) (s : Session) (rows : List Session)
    → consume hash now before ≡ (some s, rows)
    → Consumed hash now s rows
unfolding consume
consume-Consumed hash now [] s rows h = cc
consume-Consumed hash now (x ∷ before) s rows h = elim (Bool-cases (x.token_hash == hash)) [
  | inl same ↦ elim (Bool-cases (is_live now x)) [
    | inr dead ↦ cc (rw (consume, same, dead) at h)
    | inl live ↦
        let e : ◌≡◌ {A = Option Session × List Session} (some x, used now x ∷ before)
            (some s, rows) =
          rw (consume, same, live) at h in
        let same_row : x ≡ s = cc (e) in
        subst (λ r. Consumed hash now r rows) same_row
          (subst (Consumed hash now x) (ap (λ r. r.1) e) (first-Consumed hash now x before same))
  ]
  | inr other ↦
      let e : ◌≡◌ {A = Option Session × List Session}
          ((consume hash now before).0, x ∷ (consume hash now before).1) (some s, rows) =
        rw (consume, other) at h in
      subst (Consumed hash now s) (ap (λ r. r.1) e) (
        later-Consumed hash now x s (consume hash now before).1 other (
          consume-Consumed hash now before s (consume hash now before).1
            (λ i. ((e i).0, (consume hash now before).1))))
]

pub find-append :
    (hash : ℕ) (xs ys : List Session) (s : Session)
    → find_by_token_hash hash xs ≡ some s
    → find_by_token_hash hash (xs ++ ys) ≡ some s
unfolding find_by_token_hash
find-append hash [] ys s h = cc
find-append hash (x ∷ xs) ys s h = elim (Bool-cases (x.token_hash == hash)) [
  | inl same ↦ rw (find_by_token_hash, same) (rw (find_by_token_hash, same) at h)
  | inr other ↦
      rw (find_by_token_hash, other)
        (find-append hash xs ys s (rw (find_by_token_hash, other) at h))
]

pub consume-append :
    (hash now : ℕ) (xs ys : List Session) (s : Session)
    → find_by_token_hash hash xs ≡ some s
    → consume hash now xs ≡ (none, xs)
    → consume hash now (xs ++ ys) ≡ (none, xs ++ ys)
unfolding find_by_token_hash consume
consume-append hash now [] ys s h c = cc
consume-append hash now (x ∷ xs) ys s h c = elim (Bool-cases (x.token_hash == hash)) [
  | inl same ↦ elim (Bool-cases (is_live now x)) [
    | inl live ↦ cc (rw (consume, same, live) at c)
    | inr dead ↦ rw (consume, same, dead) refl
  ]
  | inr other ↦
      let e : ◌≡◌ {A = Option Session × List Session}
          ((consume hash now xs).0, x ∷ (consume hash now xs).1) (none, x ∷ xs) =
        rw (consume, other) at c in
      rw
        (
          consume,
          other,
          consume-append hash now xs ys s (rw (find_by_token_hash, other) at h) (cc (e)),
        )
        refl
]

-- After `revokeFamily` every session of the family is revoked.
pub revoke_family-IsRevoked :
    (family now : ℕ) (rows : List Session) → All (IsRevoked family) (revoke_family family now rows)
unfolding revoke_family
revoke_family-IsRevoked family now [] = tt
revoke_family-IsRevoked family now (s ∷ rows) =
    (ground arith, revoke_family-IsRevoked family now rows)

pub revoke_family-keeps :
    (family other now : ℕ) (rows : List Session)
    → All (IsRevoked family) rows
    → All (IsRevoked family) (revoke_family other now rows)
unfolding revoke_family
revoke_family-keeps family other now [] h = tt
revoke_family-keeps family other now (s ∷ rows) h =
    (ground (arith, h.0), revoke_family-keeps family other now rows h.1)

pub consume-keeps :
    (family hash now : ℕ) (rows : List Session)
    → All (IsRevoked family) rows
    → All (IsRevoked family) (consume hash now rows).1
unfolding consume
consume-keeps family hash now [] h = tt
consume-keeps family hash now (x ∷ rows) h = elim (Bool-cases (x.token_hash == hash)) [
  | inl same ↦ elim (Bool-cases (is_live now x)) [
    | inl live ↦ rw (consume, same, live) (h.0, h.1)
    | inr dead ↦ rw (consume, same, dead) h
  ]
  | inr other ↦ rw (consume, other) (h.0, consume-keeps family hash now rows h.1)
]

-- No session of a revoked family can be consumed.
pub consume-family :
    (family hash now : ℕ) (before : List Session) (s : Session) (rows : List Session)
    → All (IsRevoked family) before
    → consume hash now before ≡ (some s, rows)
    → (s.family_id == family) ≡ false
unfolding consume
consume-family family hash now [] s rows h c = cc
consume-family family hash now (x ∷ before) s rows h c = elim (Bool-cases (x.token_hash == hash)) [
  | inl same ↦ elim (Bool-cases (is_live now x)) [
    | inr dead ↦ cc (rw (consume, same, dead) at c)
    | inl live ↦
        let e : ◌≡◌ {A = Option Session × List Session} (some x, used now x ∷ before)
            (some s, rows) =
          rw (consume, same, live) at c in
        let same_row : x ≡ s = cc (e) in
        subst (λ (r : Session). (r.family_id == family) ≡ false) same_row (not_revoked live)
  ]
  | inr other ↦
      let e : ◌≡◌ {A = Option Session × List Session}
          ((consume hash now before).0, x ∷ (consume hash now before).1) (some s, rows) =
        rw (consume, other) at c in
      consume-family family hash now before s (consume hash now before).1 h.1
        (λ i. ((e i).0, (consume hash now before).1))
]
  where
    not_revoked : is_live now x ≡ true → (x.family_id == family) ≡ false
    not_revoked live = elim (Bool-cases (x.family_id == family)) [
      | inr outside ↦ outside
      | inl inside ↦ ground (arith, live, h.0 inside)
    ]

-- The session that is consumed is the one that the token's hash finds.
pub consume-found :
    (hash now : ℕ) (before : List Session) (s : Session) (rows : List Session)
    → consume hash now before ≡ (some s, rows)
    → find_by_token_hash hash before ≡ some s
unfolding consume find_by_token_hash
consume-found hash now [] s rows c = cc
consume-found hash now (x ∷ before) s rows c = elim (Bool-cases (x.token_hash == hash)) [
  | inl same ↦ elim (Bool-cases (is_live now x)) [
    | inr dead ↦ cc (rw (consume, same, dead) at c)
    | inl live ↦
        let e : ◌≡◌ {A = Option Session × List Session} (some x, used now x ∷ before)
            (some s, rows) =
          rw (consume, same, live) at c in
        rw (find_by_token_hash, same) (ap (λ r. r.0) e)
  ]
  | inr other ↦
      let e : ◌≡◌ {A = Option Session × List Session}
          ((consume hash now before).0, x ∷ (consume hash now before).1) (some s, rows) =
        rw (consume, other) at c in
      rw (find_by_token_hash, other)
        (consume-found hash now before s (consume hash now before).1
          (λ i. ((e i).0, (consume hash now before).1)))
]
