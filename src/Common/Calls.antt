-- ===== src/Common/Calls.antt =====
-- A database call: it reads and writes a state and returns a result or throws. `transactional` is
-- the `@Transactional()` decorator with its default propagation: the outermost call begins a
-- transaction, an inner one joins it, and an exception that leaves the method rolls its writes back.
use mathlib.Core.Path.{◌≡◌, refl}

pub data Result (E A : Type 0) : Type 0 where
  ok : A → Result E A
  err : E → Result E A

abbrev pub Tx : Type 0 → Type 0 → Type 0 → Type 0
Tx S E A = S → Result E A × S

module _ {S E : Type 0} where
  abbrev pub pure : {A : Type 0} → A → Tx S E A
  pure a s = (ok a, s)

  abbrev pub throw : {A : Type 0} → E → Tx S E A
  throw e s = (err e, s)

  abbrev pub gets : {A : Type 0} → (S → A) → Tx S E A
  gets f s = (ok (f s), s)

  abbrev pub modify : (S → S) → Tx S E (Unit {0})
  modify f s = (ok tt, f s)

  -- What follows a call, by how it ended.
  abbrev pub continue_with : {A B : Type 0} → (A → Tx S E B) → Result E A × S → Result E B × S
  continue_with f (ok a, s) = f a s
  continue_with f (err e, s) = (err e, s)

  infixl 5 ◌>>=◌ ◌>>◌
  abbrev pub ◌>>=◌ : {A B : Type 0} → Tx S E A → (A → Tx S E B) → Tx S E B
  ◌>>=◌ m f s = continue_with f (m s)

  abbrev pub ◌>>◌ : {A B : Type 0} → Tx S E A → Tx S E B → Tx S E B
  m >> k = m >>= λ _. k

  -- Commit, or roll back to the state before.
  abbrev pub conclude : {A : Type 0} → S → Result E A × S → Result E A × S
  conclude before (ok a, after) = (ok a, after)
  conclude before (err e, after) = (err e, before)

  abbrev pub transactional : {A : Type 0} → Tx S E A → Tx S E A
  transactional m s = conclude s (m s)

  -- What a chain that returns says of its parts.
  pub continue_with_inv :
      {A B : Type 0} (f : A → Tx S E B) (r : Result E A × S) (b : B) (s : S)
      → continue_with f r ≡ (ok b, s)
      → (a : A) × (t : S) × (r ≡ (ok a, t)) × (f a t ≡ (ok b, s))
  continue_with_inv f (ok a, t) b s h = (a, t, refl, h)
  continue_with_inv f (err e, t) b s h = cc

  pub conclude_inv :
      {A : Type 0} (before : S) (r : Result E A × S) (a : A) (s : S)
      → conclude before r ≡ (ok a, s)
      → r ≡ (ok a, s)
  conclude_inv before (ok b, t) a s h = h
  conclude_inv before (err e, t) a s h = cc

-- Two calls that return agree on what they return and on the state.
pub ok_pair_inv :
    {S E A : Type 0} (a b : A) (s t : S)
    → ◌≡◌ {A = Result E A × S} (ok a, s) (ok b, t)
    → (a ≡ b) × (s ≡ t)
ok_pair_inv a b s t h = (cc (h), cc (h))
