-- ===== src/Order/Readers.antt =====
-- An order is read by its owner and by the staff alone (src/order/service/order.service.ts, src/generic/auth).
use marketplace_api_v.Common.{
  ℕ, ◌≡◌, refl, ap, ◌∙◌, subst, ◌⊎◌, Bool, true, false, Option, none, some, List, [], ◌∷◌, arith,
  ◌==◌, Text, Bool-cases, Option-cases, inl, inr, Result, ok, err, lookup,
}
use marketplace_api_v.Messaging.{UuidText}
use marketplace_api_v.Identity.Store.{IdentityError, unauthorized}
use marketplace_api_v.Identity.Commands.{Setting, Denial}
use marketplace_api_v.Access.Tokens.{
  AccessClaims, Jwt, Request, bearer_of, split_on, header_or_empty, challenge_for, check_bearer,
  verify, check_token,
}
use marketplace_api_v.Access.Abilities.{
  read, order, is_staff, may_sell, can_order, create_for, allows, check_ability,
}
use marketplace_api_v.Generic.Cache.{Poll, lock_taken, lock_held, wait_or_load, load_and_store}
use marketplace_api_v.Order.Store.{Order, OrderDb, OrderError, not_found, find_by_id_or_fail}
use marketplace_api_v.Order.Reading.{
  found, CacheView, order_cache, find_by_id, readable, find_readable_by_id, with_ability,
  after_token, read_order,
}

-- The claims are of a member of the staff, or of the owner.
abbrev pub IsOwnerOrStaff : AccessClaims → Option ℕ → Type 0
IsOwnerOrStaff c owned_by = (is_staff c.role ≡ true) ⊎ (owned_by ≡ some c.identity_public_id)

owner_rule :
    (c : AccessClaims) (owned_by : Option ℕ)
    → is_staff c.role ≡ false
    → can_order (create_for c) read owned_by ≡ true
    → IsOwnerOrStaff c owned_by
unfolding create_for
owner_rule c none other h = elim (Bool-cases (may_sell c.role)) [
  | inl seller ↦ cc (rw (create_for, other, seller) at h)
  | inr buyer ↦ cc (rw (create_for, other, buyer) at h)
]
owner_rule c (some o) other h = elim (Bool-cases (o == c.identity_public_id)) [
  | inl mine ↦ inr (ground arith)
  | inr foreign ↦ elim (Bool-cases (may_sell c.role)) [
    | inl seller ↦ cc (rw (create_for, other, seller, foreign) at h)
    | inr buyer ↦ cc (rw (create_for, other, buyer, foreign) at h)
  ]
]

can_order-IsOwnerOrStaff :
    (c : AccessClaims) (owned_by : Option ℕ)
    → can_order (create_for c) read owned_by ≡ true
    → IsOwnerOrStaff c owned_by
can_order-IsOwnerOrStaff c owned_by h = elim (Bool-cases (is_staff c.role)) [
  | inl staff ↦ inl staff
  | inr other ↦ owner_rule c owned_by other h
]

-- An order that the cache held for a caller.
abbrev pub Held : Order → List (Poll Order) → Type 0
Held v [] = ⊥
Held v (lock_taken ∷ polls) = ⊥
Held v (lock_held none ∷ polls) = Held v polls
Held v (lock_held (some w) ∷ polls) = w ≡ v

abbrev pub IsKnown : CacheView → ℕ → OrderDb → Order → Type 0
IsKnown view id db v = ((view.first ≡ some v) ⊎ Held v view.polls) ⊎ (lookup id db.orders ≡ some v)

stored-lookup :
    (id : ℕ) (db : OrderDb) (v : Order)
    → (find_by_id_or_fail id db).0 ≡ ok v
    → lookup id db.orders ≡ some v
unfolding find_by_id_or_fail
stored-lookup id db v h = ground arith

load_and_store-ok :
    (random : ℕ) (r : Result OrderError Order) (v : Order)
    → (load_and_store order_cache random r).result ≡ ok v
    → r ≡ ok v
load_and_store-ok random (ok w) v h = h
load_and_store-ok random (err e) v h = cc

wait_or_load-ok :
    (random : ℕ) (polls : List (Poll Order)) (r : Result OrderError Order) (v : Order)
    → (wait_or_load order_cache random r polls).result ≡ ok v
    → Held v polls ⊎ (r ≡ ok v)
unfolding wait_or_load
wait_or_load-ok random [] r v h = inr (load_and_store-ok random r v h)
wait_or_load-ok random (lock_taken ∷ polls) r v h = inr (load_and_store-ok random r v h)
wait_or_load-ok random (lock_held none ∷ polls) r v h = wait_or_load-ok random polls r v h
wait_or_load-ok random (lock_held (some w) ∷ polls) r v h = inl (cc (h))

find_by_id-IsKnown :
    (view : CacheView) (id : ℕ) (db : OrderDb) (v : Order)
    → (find_by_id view id db).result ≡ ok v
    → IsKnown view id db v
unfolding find_by_id
find_by_id-IsKnown view id db v h = elim (Option-cases view.first) [
  | inr (w, cached) ↦ inl (inl (cached ∙ cc (rw (find_by_id, cached) at h)))
  | inl fresh ↦
      elim (wait_or_load-ok view.random view.polls (find_by_id_or_fail id db).0 v
        (rw (find_by_id, fresh) at h)) [
          | inl held ↦ inl (inr held)
          | inr loaded ↦ inr (stored-lookup id db v loaded)
        ]
]

readable-found :
    (c : AccessClaims) (r : Result OrderError Order) (v : Order)
    → readable (create_for c) r ≡ found v
    → (r ≡ ok v) × IsOwnerOrStaff c v.owner_identity
readable-found c (ok o) v h = elim (Bool-cases (can_order (create_for c) read o.owner_identity)) [
  | inr barred ↦ cc (rw barred at h)
  | inl free ↦
      let e : found o ≡ found v = rw free at h in
      let same : o ≡ v = cc (e) in
      (
        ap (λ (x : Order). ok x) same,
        subst (λ (x : Order). IsOwnerOrStaff c x.owner_identity) same
            (can_order-IsOwnerOrStaff c o.owner_identity free),
      )
]
readable-found c (err not_found) v h = cc
readable-found c (err _) v h = cc

module _ (jwt : Jwt) (uuids : UuidText) (r : Request) (g : Setting) (denials : List Denial)
    (view : CacheView) (id : ℕ) (db : OrderDb) (v : Order) where
  identified :
      (is_http : Bool) (c : AccessClaims)
      → with_ability view id db (check_ability is_http (some c) (some (read, order))) ≡ found v
      → IsKnown view id db v × IsOwnerOrStaff c v.owner_identity
  unfolding check_ability find_readable_by_id
  identified false c h = cc
  identified true c h = elim (Bool-cases (allows (some (create_for c)) read order)) [
    | inr barred ↦ cc (rw barred at h)
    | inl free ↦
        let (loaded, entitled) = readable-found c (find_by_id view id db).result v (rw free at h) in
        (find_by_id-IsKnown view id db v loaded, entitled)
  ]

  anonymous :
      (is_http : Bool)
      → (h : with_ability view id db (check_ability is_http none (some (read, order))) ≡ found v)
      → ⊥
  unfolding check_ability
  anonymous true h = cc
  anonymous false h = cc

  -- The token of a header, and the claims that its verification gave.
  abbrev pub Presented : AccessClaims → Type 0
  Presented c =
      (token : Text) × (bearer_of (split_on 32 [] (header_or_empty r.authorization)) ≡ some token)
      × (verify jwt uuids token g denials ≡ ok c)

  challenged :
      (o : Result IdentityError AccessClaims)
      → after_token view id db true (challenge_for o) ≡ found v
      → (c : AccessClaims) × (o ≡ ok c) × IsKnown view id db v × IsOwnerOrStaff c v.owner_identity
  challenged (ok c) h = let (known, entitled) = identified true c h in (c, refl, known, entitled)
  challenged (err unauthorized) h = cc
  challenged (err _) h = cc

  bearer :
      (o : Option Text)
      → bearer_of (split_on 32 [] (header_or_empty r.authorization)) ≡ o
      → after_token view id db true (check_bearer jwt uuids g denials o) ≡ found v
      → (c : AccessClaims) × Presented c × IsKnown view id db v × IsOwnerOrStaff c v.owner_identity
  bearer none e h = cc
  bearer (some token) e h =
      let (c, verified, known, entitled) = challenged (verify jwt uuids token g denials) h in
      (c, (token, e, verified), known, entitled)

  -- An order is answered only to its owner, or to an admin or an owner of the shop: the request has presented a bearer token that
  -- verifies and whose family is not known to be denied, and its claims name the identity that placed the order, or a
  -- role of the staff. The order is the stored one, or one that the cache held for it.
  pub read_order-IsOwnerOrStaff :
      read_order jwt uuids r g denials view id db ≡ found v
      → (c : AccessClaims) × Presented c × IsKnown view id db v × IsOwnerOrStaff c v.owner_identity
  unfolding read_order check_token
  read_order-IsOwnerOrStaff h = elim (Bool-cases r.is_http) [
    | inr elsewhere ↦ absurd (anonymous false (rw (read_order, check_token, elsewhere) at h))
    | inl http ↦ elim (Bool-cases r.is_public) [
      | inl open_to_all ↦
          absurd (anonymous true (rw (read_order, check_token, http, open_to_all) at h))
      | inr guarded ↦
          bearer (bearer_of (split_on 32 [] (header_or_empty r.authorization))) refl
            (rw (read_order, check_token, http, guarded) at h)
    ]
  ]
