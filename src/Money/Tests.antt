-- ===== src/Money/Tests.antt =====
-- Examples of amounts as texts.
use marketplace_api_v.Common.{◌≡◌, refl, true, codes}
use marketplace_api_v.Money.Text.{is_amount, is_fraction}

-- Fewer than two decimals are accepted too.
accepted : is_amount (codes "6.5") ≡ true
unfolding is_amount is_fraction
accepted = refl
