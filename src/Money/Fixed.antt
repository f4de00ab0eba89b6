-- ===== src/Money/Fixed.antt =====
-- `toFixed(2)` against the gateway's check and its reading of amounts
-- (src/account/gateway/account.gateway.ts, src/account/command-handler).
use native.Mathlib.Nat.{pow-suc}
use marketplace_api_v.Common.{
  ℕ, zero, suc, ◌+◌, ◌-◌, ◌*◌, ◌/◌, ◌%◌, ◌^◌, ◌≤◌, ◌<◌, ◌≡◌, refl, true, [], ◌∷◌, arith, length,
  Text, le→leb, ◌&&◌, Bool, Bool-cases, inl, inr,
}
use marketplace_api_v.Money.Text.{
  is_digit, leading_digits, after_digits, value_from, fraction_cents, is_fraction, is_amount,
  cents_of, decimal_digits, to_fixed,
}
use marketplace_api_v.Money.Digits.{
  IsDigits, decimal_digits-IsDigits, leading_digits-append, after_digits-append,
  value_from-decimal_digits, length-decimal_digits, length-decimal_digits_pos,
}

abbrev whole : ℕ → Text
whole cents = decimal_digits (suc (cents / 100)) (cents / 100)

abbrev decimals : ℕ → Text
decimals cents = (b'0' + cents / 10 % 10) ∷ (b'0' + cents % 10) ∷ []

leading_digits-to_fixed : (cents : ℕ) → leading_digits (to_fixed cents) ≡ whole cents
unfolding to_fixed
leading_digits-to_fixed cents =
    leading_digits-append (whole cents) b'.' (decimals cents)
      (decimal_digits-IsDigits (suc (cents / 100)) (cents / 100)) refl

after_digits-to_fixed : (cents : ℕ) → after_digits (to_fixed cents) ≡ b'.' ∷ decimals cents
unfolding to_fixed
after_digits-to_fixed cents =
    after_digits-append (whole cents) b'.' (decimals cents)
      (decimal_digits-IsDigits (suc (cents / 100)) (cents / 100)) refl

pub cents_of-to_fixed : (cents : ℕ) → cents_of (to_fixed cents) ≡ cents
unfolding cents_of fraction_cents
cents_of-to_fixed cents =
    rw (leading_digits-to_fixed cents, after_digits-to_fixed cents)
      (omega (arith, value_from-decimal_digits (suc (cents / 100)) (cents / 100)))

is_fraction-decimals : (cents : ℕ) → is_fraction (b'.' ∷ decimals cents) ≡ true
unfolding is_fraction
is_fraction-decimals cents = ground arith

and-intro : {a b c : Bool} → a ≡ true → b ≡ true → c ≡ true → (a && b && c) ≡ true
and-intro p q r = ground arith

-- Every amount below 10^10 units that `toFixed(2)` writes passes the gateway's check.
pub is_amount-to_fixed : (cents : ℕ) → cents < 1_000_000_000_000 → is_amount (to_fixed cents) ≡ true
unfolding is_amount
is_amount-to_fixed cents h =
    rw (leading_digits-to_fixed cents, after_digits-to_fixed cents)
      (and-intro (le→leb _ _ (length-decimal_digits_pos (cents / 100) (cents / 100)))
        (le→leb _ _ (length-decimal_digits 9 (suc (cents / 100)) (cents / 100) (omega arith)))
        (is_fraction-decimals cents))

pow_pos : (k : ℕ) → 1 ≤ 10 ^ k
pow_pos zero = omega arith
pow_pos (suc k) = omega (arith, pow-suc 10 k, pow_pos k)

scale_le : (x a p : ℕ) → x ≤ a * 10 + 10 → x * p ≤ (a + 1) * (p * 10)
scale_le x a p h = omega (arith, mul_mono x (a * 10 + 10) p h)
  where
    mul_mono : (x y p : ℕ) → x ≤ y → x * p ≤ y * p
    mul_mono x y p h = grind arith

digit-lt : (d : ℕ) → is_digit d ≡ true → d - b'0' < 10
digit-lt d h = ground arith

-- At most k digits more multiply what was read by less than 10^k.
value_from-lt :
    (acc k : ℕ) (ds : Text) → IsDigits ds → length ds ≤ k → value_from acc ds < (acc + 1) * 10 ^ k
unfolding value_from
value_from-lt acc k [] h l = omega (arith, scale_one acc (10 ^ k) (pow_pos k))
  where
    scale_one : (a p : ℕ) → 1 ≤ p → a + 1 ≤ (a + 1) * p
    scale_one a p q = grind arith
value_from-lt acc zero (d ∷ ds) h l = absurd (omega arith)
value_from-lt acc (suc k) (d ∷ ds) h l = rw (pow-suc 10 k) (
    omega (
      arith,
      value_from-lt (acc * 10 + (d - b'0')) k ds h.1 (omega arith),
      scale_le (acc * 10 + (d - b'0') + 1) acc (10 ^ k) (omega (arith, digit-lt d h.0)),
    ))

leading_digits-IsDigits : (s : Text) → IsDigits (leading_digits s)
leading_digits-IsDigits [] = tt
leading_digits-IsDigits (c ∷ cs) = elim (Bool-cases (is_digit c)) [
  | inl digit ↦ rw digit (digit, leading_digits-IsDigits cs)
  | inr other ↦ rw other tt
]

two_decimals : (d e : ℕ) → is_digit d ≡ true → is_digit e ≡ true → (d - b'0') * 10 + (e - b'0') ≤ 99
two_decimals d e h k = omega (arith, digit-lt d h, digit-lt e k)

fraction_cents-le : (s : Text) → is_fraction s ≡ true → fraction_cents s ≤ 99
unfolding is_fraction fraction_cents
fraction_cents-le [] h = omega arith
fraction_cents-le (p ∷ []) h = omega arith
fraction_cents-le (p ∷ d ∷ []) h = ground arith
fraction_cents-le (p ∷ d ∷ e ∷ cs) h = ground (arith, two_decimals d e)

-- What the gateway's check lets through is below 10^10 units, so it fits `numeric(12,2)`.
pub cents_of-lt : (s : Text) → is_amount s ≡ true → cents_of s < 1_000_000_000_000
unfolding is_amount cents_of
cents_of-lt s h = omega (
  arith,
  fraction_cents-le (after_digits s) (ground arith),
  value_from-lt 0 10 (leading_digits s) (leading_digits-IsDigits s) (ground arith),
)
