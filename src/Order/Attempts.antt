-- ===== src/Order/Attempts.antt =====
-- Rules for the attempts of an activity (src/order/activity/order-place.activity.ts): what each call keeps, the
-- activity keeps.
use marketplace_api_v.Common.{◌≡◌, true, Option, none, some, List, [], ◌∷◌}
use marketplace_api_v.Order.Activity.{
  Rpc, Attempt, expires, loses_reply, answers, request, request_until_done, is_heard,
}

module _ {S R : Type 0} (P : S → Type 0) (Q : R → S → Type 0) where
  -- What a call leaves: the invariant, and its reply's postcondition.
  abbrev pub Leaves : Option R × S → Type 0
  Leaves (none, s) = P s
  Leaves (some r, s) = P s × Q r s

  Leaves-P : (x : Option R × S) → Leaves x → P x.1
  Leaves-P (none, s) h = h
  Leaves-P (some r, s) h = h.0

  -- A reply that was heard has its postcondition.
  pub heard-Leaves : (x : Option R × S) → Leaves x → is_heard x.0 ≡ true → (r : R) × P x.1 × Q r x.1
  heard-Leaves (none, s) h e = cc
  heard-Leaves (some r, s) h e = (r, h.0, h.1)

  module _ (call : Rpc S R) (step : (s : S) → P s → Leaves (call s)) where
    pub request-Leaves : (ms : List Attempt) (s : S) → P s → Leaves (request call ms s)
    unfolding request
    request-Leaves [] s p = p
    request-Leaves (expires ∷ ms) s p = request-Leaves ms s p
    request-Leaves (loses_reply ∷ ms) s p =
        request-Leaves ms (call s).1 (Leaves-P (call s) (step s p))
    request-Leaves (answers ∷ ms) s p =
        answered (call s).0 (step s p) (request-Leaves ms (call s).1 (Leaves-P (call s) (step s p)))
      where
        answered :
            (o : Option R)
            → Leaves (call s)
            → Leaves (request call ms (call s).1)
            → Leaves (elim o [ none ↦ request call ms (call s).1 | some r ↦ call s ])
        answered none now later = later
        answered (some r) now later = now

    module _ (replies : (s : S) → P s → is_heard (call s).0 ≡ true) where
      pub request_until_done-Leaves :
          (ms : List Attempt) (s : S)
          → P s
          → Leaves (request_until_done call ms s)
            × (is_heard (request_until_done call ms s).0 ≡ true)
      unfolding request_until_done
      request_until_done-Leaves [] s p = (step s p, replies s p)
      request_until_done-Leaves (expires ∷ ms) s p = request_until_done-Leaves ms s p
      request_until_done-Leaves (loses_reply ∷ ms) s p =
          request_until_done-Leaves ms (call s).1 (Leaves-P (call s) (step s p))
      request_until_done-Leaves (answers ∷ ms) s p =
          answered (call s).0 (step s p, replies s p)
            (request_until_done-Leaves ms (call s).1 (Leaves-P (call s) (step s p)))
        where
          Done : Option R × S → Type 0
          Done x = Leaves x × (is_heard x.0 ≡ true)

          answered :
              (o : Option R)
              → Done (call s)
              → Done (request_until_done call ms (call s).1)
              → Done (elim o [ none ↦ request_until_done call ms (call s).1 | some r ↦ call s ])
          answered none now later = later
          answered (some r) now later = now
