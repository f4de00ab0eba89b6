-- ===== src/Money/Text.antt =====
-- Amounts as strings of character codes. The values that the program writes have two decimals, so a
-- value is carried as a number of cents. Up to 10^12 cents, `Number(text).toFixed(2)` on doubles gives
-- the text of exactly these cents: the double nearest to them is less than half a cent away.
use marketplace_api_v.Common.{
  ℕ, zero, suc, ◌+◌, ◌-◌, ◌*◌, ◌/◌, ◌%◌, Bool, true, false, ◌&&◌, [], ◌∷◌, ◌++◌, leb, ltb, ◌==◌,
  if◌then◌else◌, length, Text,
}

abbrev pub is_digit : ℕ → Bool
is_digit c = leb b'0' c && leb c b'9'

-- The leading digits, `\d*`, and what follows them.
abbrev pub leading_digits : Text → Text
leading_digits [] = []
leading_digits (c ∷ cs) = if is_digit c then c ∷ leading_digits cs else []

abbrev pub after_digits : Text → Text
after_digits [] = []
after_digits (c ∷ cs) = if is_digit c then after_digits cs else c ∷ cs

abbrev pub is_empty : Text → Bool
is_empty [] = true
is_empty (_ ∷ _) = false

-- `(\.\d{1,2})?$`
unfoldable pub is_fraction : Text → Bool
is_fraction [] = true
is_fraction (c ∷ cs) =
    (c == b'.')
    && leb 1 (length (leading_digits cs))
    && leb (length (leading_digits cs)) 2
    && is_empty (after_digits cs)

-- `/^\d{1,10}(\.\d{1,2})?$/`; a digit is no point, so the digits before the point are all taken.
unfoldable pub is_amount : Text → Bool
is_amount s =
    leb 1 (length (leading_digits s))
    && leb (length (leading_digits s)) 10
    && is_fraction (after_digits s)

-- The number that decimal digits write after those already read.
unfoldable pub value_from : ℕ → Text → ℕ
value_from acc [] = acc
value_from acc (c ∷ cs) = value_from (acc * 10 + (c - b'0')) cs

-- The cents that one or two digits after the point write.
unfoldable pub fraction_cents : Text → ℕ
fraction_cents (p ∷ d ∷ []) = (d - b'0') * 10
fraction_cents (p ∷ d ∷ e ∷ cs) = (d - b'0') * 10 + (e - b'0')
fraction_cents _ = 0

-- `Number(text)` on an accepted text, in cents.
unfoldable pub cents_of : Text → ℕ
cents_of s = value_from 0 (leading_digits s) * 100 + fraction_cents (after_digits s)

-- The decimal digits of a number, with fuel for their count.
unfoldable pub decimal_digits : ℕ → ℕ → Text
decimal_digits zero n = []
decimal_digits (suc f) n =
    let rest = decimal_digits f (n / 10) ++ (b'0' + n % 10) ∷ [] in
    if ltb n 10 then (b'0' + n) ∷ [] else rest

-- `(cents / 100).toFixed(2)`; a number has fewer digits than one more than itself.
unfoldable pub to_fixed : ℕ → Text
unfolding decimal_digits
to_fixed cents =
    decimal_digits (suc (cents / 100)) (cents / 100)
    ++ b'.' ∷ (b'0' + cents / 10 % 10) ∷ (b'0' + cents % 10) ∷ []
