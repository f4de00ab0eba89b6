-- ===== src/Order/Listeners.antt =====
-- Who listens to an order's events (src/order/service/order-notify.service.ts).
use mathlib.Core.List.{append-nil}
use marketplace_api_v.Common.{
  ℕ, ◌≡◌, refl, ap, ◌∙◌, Bool, true, false, not, none, some, List, [], ◌∷◌, ◌++◌, arith, ◌==◌,
  ==_refl, if◌then◌else◌, any, keep, keep-append, length, lookup, lookup-put, lookup-without_key,
  Bool-cases, inl, inr,
}
use marketplace_api_v.Order.Notify.{Notify, list_or_empty, subscribe, unsubscribe}

-- The listeners of an order.
abbrev listeners_of : ℕ → Notify → List ℕ
listeners_of order s = list_or_empty (lookup order s.listeners)

keep_others :
    (listener : ℕ) (set : List ℕ)
    → any (λ l. l == listener) set ≡ false
    → keep (λ l. not (l == listener)) set ≡ set
keep_others listener [] h = refl
keep_others listener (l ∷ set) h =
    let differ : (l == listener) ≡ false = ground (arith, h) in
    rw (differ, keep_others listener set (ground (arith, h))) refl

length-zero : (set : List ℕ) → (length set == 0) ≡ true → set ≡ []
length-zero [] h = refl
length-zero (l ∷ set) h = ground (arith, h)

set_if :
    (other : ℕ) (s : Notify) (left : List ℕ) (b : Bool)
    → list_or_empty (if b then some left else lookup other s.listeners)
      ≡ (if b then left else listeners_of other s)
set_if other s left true = refl
set_if other s left false = refl

-- The sets after a stream ends: its own order's set is without the listener, the others are as they were.
listeners-unsubscribe :
    (order listener other : ℕ) (s : Notify)
    → listeners_of other (unsubscribe order listener s) ≡ (
        if order == other
        then keep (λ l. not (l == listener)) (listeners_of order s)
        else listeners_of other s)
unfolding unsubscribe
listeners-unsubscribe order listener other s =
    let left = keep (λ l. not (l == listener)) (listeners_of order s) in
    elim (Bool-cases (length left == 0)) [
      | inl empty ↦
          rw (empty, lookup-without_key order other s.listeners, length-zero left empty)
            (without (order == other))
      | inr held ↦
          rw (held, lookup-put order other left s.listeners) (set_if other s left (order == other))
    ]
  where
    without :
        (b : Bool)
        → list_or_empty (if b then none else lookup other s.listeners)
          ≡ (if b then [] else listeners_of other s)
    without true = refl
    without false = refl

listeners-subscribe :
    (order listener other : ℕ) (s : Notify)
    → any (λ l. l == listener) (listeners_of order s) ≡ false
    → listeners_of other (subscribe order listener s)
      ≡ (if order == other then listeners_of order s ++ listener ∷ [] else listeners_of other s)
unfolding subscribe
listeners-subscribe order listener other s new =
    let set = listeners_of order s ++ listener ∷ [] in
    rw (new, lookup-put order other set s.listeners) (set_if other s set (order == other))

-- A client that listens and then leaves, and did not listen before, leaves the listeners of every order as they were.
pub unsubscribe-subscribe :
    (order listener other : ℕ) (s : Notify)
    → any (λ l. l == listener) (listeners_of order s) ≡ false
    → listeners_of other (unsubscribe order listener (subscribe order listener s))
      ≡ listeners_of other s
unsubscribe-subscribe order listener other s new =
    let after = subscribe order listener s in
    listeners-unsubscribe order listener other after ∙ elim (Bool-cases (order == other)) [
      | inr apart ↦ rw apart (listeners-subscribe order listener other s new ∙ rw apart refl)
      | inl same ↦
          let own : order ≡ other = ground arith in
          let listed = listeners-subscribe order listener order s new ∙ rw (==_refl order) refl in
          rw same (
            ap (keep (λ l. not (l == listener))) listed
            ∙ keep-append (λ l. not (l == listener)) (listeners_of order s) (listener ∷ [])
            ∙ rw (==_refl listener, keep_others listener (listeners_of order s) new)
                (append-nil (listeners_of order s) ∙ ap (λ (i : ℕ). listeners_of i s) own))
    ]
