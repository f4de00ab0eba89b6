-- ===== src/Generic/SecretTests.antt =====
-- An example of secrets that can no longer be read (src/generic/secret-manager/secret-manager.service.ts).
use marketplace_api_v.Common.{◌≡◌, refl, true, false, none, some, [], ◌∷◌, codes, err, All}
use marketplace_api_v.Generic.Secrets.{
  Vault, logged_in, rejected, login_failed, ready, get_secret, get_all, IsLoginFailed,
  get_all-failed,
}

-- The session has run out, and the vault refuses the next login.
abbrev refusing : Vault
refusing = record { login = true; secret = none; second_login = false; second_secret = none }

abbrev recovered : Vault
recovered = record {
  login = true;
  secret = some (codes "s3cret");
  second_login = true;
  second_secret = some (codes "s3cret");
}

login_refused : get_secret refusing logged_in ≡ (err login_failed, rejected)
unfolding get_secret ready
login_refused = refl

get_all-failed_example :
    All IsLoginFailed (get_all (recovered ∷ recovered ∷ []) (get_secret refusing logged_in).1)
unfolding get_secret ready
get_all-failed_example = get_all-failed refusing (recovered ∷ recovered ∷ []) logged_in refl
