-- ===== src/Common/Tables.antt =====
-- A table with a numeric primary key, as an association list.
use Prim.Native.Nat.{ℕ}
use mathlib.Core.Path.{◌≡◌, refl, ap}
use mathlib.Core.Logic.{◌≢◌}
use mathlib.Core.Bool.{Bool, true, false}
use mathlib.Core.Option.{Option, none, some}
use mathlib.Core.List.{List, [], ◌∷◌}
use native.Mathlib.Omega.{arith}
use marketplace_api_v.Common.Lists.{any}
use marketplace_api_v.Common.Tests.{◌==◌, ==_refl, ==_ne, if◌then◌else◌}

abbrev pub Table {ℓ} : Type ℓ → Type ℓ
Table V = List (ℕ × V)

module _ {ℓ} {V : Type ℓ} where
  -- the row with the key
  abbrev pub lookup : ℕ → Table V → Option V
  lookup k [] = none
  lookup k ((j, v) ∷ t) = if j == k then some v else lookup k t

  -- a row written under its key: replaced in place, or added at the end
  abbrev pub put : ℕ → V → Table V → Table V
  put k v [] = (k, v) ∷ []
  put k v ((j, w) ∷ t) = if j == k then (k, v) ∷ t else (j, w) ∷ put k v t

  abbrev pub has : ℕ → Table V → Bool
  has k t = elim (lookup k t) [ none ↦ false | some _ ↦ true ]

  pub lookup-put :
      (k j : ℕ) (v : V) (t : Table V)
      → lookup j (put k v t) ≡ (if k == j then some v else lookup j t)
  lookup-put k j v [] = refl
  lookup-put k j v ((i, w) ∷ t) = ground (arith, lookup-put k j v t)

  pub lookup-put_self : (k : ℕ) (v : V) (t : Table V) → lookup k (put k v t) ≡ some v
  lookup-put_self k v t = rw (lookup-put k k v t, ==_refl k)

  pub lookup-put_ne : (k j : ℕ) (v : V) (t : Table V) → k ≢ j → lookup j (put k v t) ≡ lookup j t
  lookup-put_ne k j v t h = rw (lookup-put k j v t, ==_ne k j h)

  -- `Map.prototype.delete`
  abbrev pub without_key : ℕ → Table V → Table V
  without_key k [] = []
  without_key k ((j, v) ∷ t) = if j == k then without_key k t else (j, v) ∷ without_key k t

  pub lookup-without_key :
      (k j : ℕ) (t : Table V) → lookup j (without_key k t) ≡ (if k == j then none else lookup j t)
  lookup-without_key k j [] = ground arith
  lookup-without_key k j ((i, v) ∷ t) = ground (arith, lookup-without_key k j t)

  -- every row written anew from its key and value
  abbrev pub update_each : (ℕ → V → V) → Table V → Table V
  update_each f [] = []
  update_each f ((j, v) ∷ t) = (j, f j v) ∷ update_each f t

  pub lookup-update_each-some :
      (f : ℕ → V → V) (k : ℕ) (v : V) (t : Table V)
      → lookup k t ≡ some v
      → lookup k (update_each f t) ≡ some (f k v)
  lookup-update_each-some f k v [] e = cc
  lookup-update_each-some f k v ((j, w) ∷ t) e = ground (arith, lookup-update_each-some f k v t)

  pub lookup-update_each-none :
      (f : ℕ → V → V) (k : ℕ) (t : Table V) → lookup k t ≡ none → lookup k (update_each f t) ≡ none
  lookup-update_each-none f k [] e = refl
  lookup-update_each-none f k ((j, w) ∷ t) e = ground (arith, lookup-update_each-none f k t)

  -- The primary key: no key is listed twice.
  abbrev pub Distinct : Table V → Type ℓ
  Distinct [] = Unit
  Distinct ((k, v) ∷ t) = (lookup k t ≡ none) × Distinct t

  pub put-Distinct : (k : ℕ) (v : V) (t : Table V) → Distinct t → Distinct (put k v t)
  put-Distinct k v [] d = (refl, tt)
  put-Distinct k v ((j, w) ∷ t) d = ground (arith, put-Distinct k v t d.1, lookup-put k j v t)

  pub update_each-Distinct : (f : ℕ → V → V) (t : Table V) → Distinct t → Distinct (update_each f t)
  update_each-Distinct f [] d = tt
  update_each-Distinct f ((j, w) ∷ t) d =
      (lookup-update_each-none f j t d.0, update_each-Distinct f t d.1)

  -- A test that fails for each row that is found fails for all rows.
  pub any-false_of_lookup :
      (p : ℕ × V → Bool) (t : Table V)
      → Distinct t
      → ((k : ℕ) (v : V) → lookup k t ≡ some v → p (k, v) ≡ false)
      → any p t ≡ false
  any-false_of_lookup p [] d h = refl
  any-false_of_lookup p ((j, w) ∷ t) d h =
      rw (h j w (rw (==_refl j))) (any-false_of_lookup p t d.1 (λ k v e. h k v (shadow k v e)))
    where
      shadow : (k : ℕ) (v : V) → lookup k t ≡ some v → lookup k ((j, w) ∷ t) ≡ some v
      shadow k v e = rw (==_ne j k (λ same. cc (d.0, ap (λ (n : ℕ). lookup n t) same))) e
