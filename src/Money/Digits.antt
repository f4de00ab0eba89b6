-- ===== src/Money/Digits.antt =====
-- The decimal digits of a number: what they are, how many, and what they read back as.
use native.Mathlib.Nat.{pow-suc}
use marketplace_api_v.Common.{
  ℕ, zero, suc, ◌+◌, ◌-◌, ◌*◌, ◌/◌, ◌%◌, ◌^◌, ◌≤◌, ◌<◌, ◌≡◌, refl, true, false, [], ◌∷◌, ◌++◌,
  arith, length, Text, All, length-append, All-append, Bool-cases, inl, inr, ltb,
}
use marketplace_api_v.Money.Text.{
  is_digit, leading_digits, after_digits, value_from, decimal_digits,
}

abbrev pub IsDigits : Text → Type 0
IsDigits = All (λ c. is_digit c ≡ true)

pub decimal_digits-IsDigits : (f n : ℕ) → IsDigits (decimal_digits f n)
unfolding decimal_digits
decimal_digits-IsDigits zero n = tt
decimal_digits-IsDigits (suc f) n = elim (Bool-cases (ltb n 10)) [
  | inl small ↦ rw small (ground arith, tt)
  | inr large ↦ rw large (
      All-append (λ c. is_digit c ≡ true) (decimal_digits f (n / 10)) _
        (decimal_digits-IsDigits f (n / 10)) (ground arith, tt))
]

pub leading_digits-append :
    (ds : Text) (c : ℕ) (cs : Text)
    → IsDigits ds
    → is_digit c ≡ false
    → leading_digits (ds ++ c ∷ cs) ≡ ds
leading_digits-append [] c cs h k = rw k
leading_digits-append (d ∷ ds) c cs h k = rw (h.0, leading_digits-append ds c cs h.1 k)

pub after_digits-append :
    (ds : Text) (c : ℕ) (cs : Text)
    → IsDigits ds
    → is_digit c ≡ false
    → after_digits (ds ++ c ∷ cs) ≡ c ∷ cs
after_digits-append [] c cs h k = rw k
after_digits-append (d ∷ ds) c cs h k = rw (h.0, after_digits-append ds c cs h.1 k)

pub value_from-append :
    (acc : ℕ) (ds : Text) (c : ℕ)
    → value_from acc (ds ++ c ∷ []) ≡ value_from acc ds * 10 + (c - b'0')
unfolding value_from
value_from-append acc [] c = refl
value_from-append acc (d ∷ ds) c = value_from-append (acc * 10 + (d - b'0')) ds c

-- With more fuel than the number, its digits read back as the number.
pub value_from-decimal_digits : (f n : ℕ) → n < f → value_from 0 (decimal_digits f n) ≡ n
unfolding decimal_digits value_from
value_from-decimal_digits zero n h = absurd (omega arith)
value_from-decimal_digits (suc f) n h = elim (Bool-cases (ltb n 10)) [
  | inl small ↦ rw small (omega arith)
  | inr large ↦ rw large (
      rw (value_from-append 0 (decimal_digits f (n / 10)) (b'0' + n % 10))
        (ground (arith, value_from-decimal_digits f (n / 10))))
]

-- A number below 10^k has at most k digits, and at least one.
pub length-decimal_digits : (k f n : ℕ) → n < 10 ^ suc k → length (decimal_digits f n) ≤ suc k
unfolding decimal_digits
length-decimal_digits k zero n h = omega arith
length-decimal_digits zero (suc f) n h = ground arith
length-decimal_digits (suc k) (suc f) n h = elim (Bool-cases (ltb n 10)) [
  | inl small ↦ rw small (omega arith)
  | inr large ↦ rw large (
      omega (
        arith,
        length-append (decimal_digits f (n / 10)) ((b'0' + n % 10) ∷ []),
        length-decimal_digits k f (n / 10) (omega (arith, pow-suc 10 (suc k))),
      ))
]

pub length-decimal_digits_pos : (f n : ℕ) → 1 ≤ length (decimal_digits (suc f) n)
unfolding decimal_digits
length-decimal_digits_pos f n =
    ground (arith, length-append (decimal_digits f (n / 10)) ((b'0' + n % 10) ∷ []))
