-- ===== src/Generic/Attempts.antt =====
-- A retried transaction is one transaction (src/generic/db/typeorm-retry.adapter.ts).
use marketplace_api_v.Common.{
  ℕ, zero, suc, ◌+◌, ◌-◌, ◌≤◌, ◌<◌, ◌≡◌, refl, true, arith, length, Bool-cases, inl, inr, Result,
  ok, err, Tx, transactional, conclude, ◌==◌,
}
use marketplace_api_v.Generic.Retry.{
  Thrown, Retried, is_deadlock, delay_of, one_try, after_delay, settle, retry_from,
  retry_transaction,
}

abbrev pub Met : {E A : Type 0} → Result (Thrown E) A → Type 0
Met (ok a) = ⊥
Met (err e) = is_deadlock e ≡ true

module _ {S E A : Type 0} where
  -- What a retried transaction is: the attempt that counts, its number from `first`, none of those before it but met a
  -- deadlock, and it met none unless it was the last one.
  pub record IsLast (fn : ℕ → Tx S (Thrown E) A) (first last : ℕ) (s : S) (r : Retried S E A)
      : Type 0 where
    pub number : ℕ
    pub not_before : first ≤ number
    pub within : number ≤ last
    pub earlier : (n : ℕ) → first ≤ n → n < number → Met (fn n s).0
    pub done : number < last → Met (fn number s).0 → ⊥
    pub same : r.outcome ≡ transactional (fn number) s
    pub slept : length r.delays + first ≡ number

module _ {S E A : Type 0} (jitter : ℕ → ℕ) (base : ℕ) (fn : ℕ → Tx S (Thrown E) A) (s : S) where
  IsLast-one : (attempt : ℕ) → IsLast fn attempt attempt s (one_try (transactional (fn attempt) s))
  IsLast-one attempt = record {
    number = attempt;
    not_before = omega arith;
    within = omega arith;
    earlier = λ n lo hi. absurd (omega arith);
    done = λ hi m. omega arith;
    same = refl;
    slept = omega arith;
  }

  first_ends :
      (attempt last : ℕ)
      → (Met (fn attempt s).0 → ⊥)
      → attempt ≤ last
      → IsLast fn attempt last s (one_try (transactional (fn attempt) s))
  first_ends attempt last unmet le = record {
    number = attempt;
    not_before = omega arith;
    within = le;
    earlier = λ n lo hi. absurd (omega arith);
    done = λ hi m. unmet m;
    same = refl;
    slept = omega arith;
  }

  Met-before :
      (attempt number : ℕ)
      → Met (fn attempt s).0
      → ((n : ℕ) → attempt + 1 ≤ n → n < number → Met (fn n s).0)
      → (n : ℕ) → attempt ≤ n
      → n < number
      → Met (fn n s).0
  Met-before attempt number m rest n lo hi = elim (Bool-cases (n == attempt)) [
    | inl same ↦ let e : n ≡ attempt = ground arith in rw e m
    | inr other ↦ rest n (ground arith) hi
  ]

  again_ends :
      (attempt last ms : ℕ) (r : Retried S E A)
      → Met (fn attempt s).0
      → IsLast fn (attempt + 1) last s r
      → IsLast fn attempt last s (after_delay ms r)
  again_ends attempt last ms r m v = record {
    number = v.number;
    not_before = omega (arith, v.not_before);
    within = v.within;
    earlier = Met-before attempt v.number m v.earlier;
    done = v.done;
    same = v.same;
    slept = omega (arith, v.slept);
  }

  settle-IsLast :
      (attempt last ms : ℕ) (r : Result (Thrown E) A × S) (again : Retried S E A)
      → fn attempt s ≡ r
      → attempt ≤ last
      → IsLast fn (attempt + 1) last s again
      → IsLast fn attempt last s (settle ms (conclude s r) again)
  settle-IsLast attempt last ms (ok a, t) again e le v =
      let ends = first_ends attempt last (rw e (λ m. m)) le in rw e at ends
  settle-IsLast attempt last ms (err x, t) again e le v = elim (Bool-cases (is_deadlock x)) [
    | inl met ↦ rw met (again_ends attempt last ms again (rw e met) v)
    | inr unmet ↦ let ends = first_ends attempt last (rw e (λ m. cc)) le in rw unmet (rw e at ends)
  ]

  retry_from-IsLast :
      (left attempt : ℕ)
      → IsLast fn attempt (attempt + left) s (retry_from jitter base left attempt fn s)
  unfolding retry_from
  retry_from-IsLast zero attempt =
      let e : attempt + 0 ≡ attempt = omega arith in rw e (IsLast-one attempt)
  retry_from-IsLast (suc left) attempt =
      let e : attempt + 1 + left ≡ attempt + suc left = omega arith in
      let ih = retry_from-IsLast left (attempt + 1) in
      settle-IsLast attempt (attempt + suc left) (delay_of base jitter attempt) (fn attempt s) _
        refl (omega arith) (rw e at ih)

  -- A retried transaction ends, after at most `maxAttempts` attempts, and at least one. What it returns or throws and the state
  -- that it leaves are those of its last attempt, run alone on the state at the start: no attempt before it leaves a
  -- trace. Every attempt before the last met a deadlock, the last one met none unless it was the last that is allowed, and
  -- there was one delay between two attempts.
  pub retry_transaction-IsLast :
      (max_attempts : ℕ)
      → IsLast fn 1 (1 + (max_attempts - 1)) s (retry_transaction jitter max_attempts base fn s)
  unfolding retry_transaction
  retry_transaction-IsLast max_attempts = retry_from-IsLast (max_attempts - 1) 1
