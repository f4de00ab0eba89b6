-- ===== src/Generic/Secrets.antt =====
-- src/generic/secret-manager/secret-manager.service.ts: secrets from the environment, or from the vault over a session that is
-- logged in once. What the vault answers is an argument. With it src/generic/secret-manager/missing-environment-secrets.ts.
use marketplace_api_v.Common.{
  ℕ, ◌≡◌, refl, Bool, true, false, not, Option, none, some, List, [], ◌∷◌, keep, if◌then◌else◌,
  Text, Result, ok, err, Bool-cases, inl, inr, All,
}

-- `this.session`: null, or a promise that has been fulfilled or rejected.
pub data LoginSession : Type 0 where
  no_session logged_in rejected : LoginSession

pub data SecretError : Type 0 where
  not_set login_failed read_failed : SecretError

-- What the vault answers during one `get`: to the login and the read, and to those that follow a failed read.
pub record Vault : Type 0 where
  pub login : Bool
  pub secret : Option Text
  pub second_login : Bool
  pub second_secret : Option Text

abbrev pub Got : Type 0
Got = Result SecretError Text × LoginSession

-- `ready`, and whether the session's promise is fulfilled.
unfoldable pub ready : Bool → LoginSession → Bool × LoginSession
ready answer no_session = if answer then (true, logged_in) else (false, rejected)
ready answer logged_in = (true, logged_in)
ready answer rejected = (false, rejected)

abbrev pub read_last : Option Text → Bool × LoginSession → Got
read_last secret (false, s) = (err login_failed, s)
read_last (some t) (true, s) = (ok t, s)
read_last none (true, s) = (err read_failed, s)

-- A read that fails is tried once more, over a new session.
abbrev pub read_over : Vault → Bool × LoginSession → Got
read_over v (false, s) = (err login_failed, s)
read_over v (true, s) = elim v.secret [
  | some t ↦ (ok t, s)
  | none ↦ read_last v.second_secret (ready v.second_login no_session)
]

-- `get` without `SKIP_VAULT`
unfoldable pub get_secret : Vault → LoginSession → Got
get_secret v s = read_over v (ready v.login s)

abbrev pub is_unset : Option Text → Bool
is_unset none = true
is_unset (some []) = true
is_unset (some t) = false

-- `fromEnvironmentOrFail`
unfoldable pub from_environment_or_fail : Option Text → Result SecretError Text
from_environment_or_fail none = err not_set
from_environment_or_fail (some []) = err not_set
from_environment_or_fail (some (c ∷ t)) = ok (c ∷ t)

-- `missingEnvironmentSecrets`, for the names of the secrets as numbers.
unfoldable pub missing_environment_secrets : Bool → (ℕ → Option Text) → List ℕ → List ℕ
missing_environment_secrets skip_vault environment names =
    if not skip_vault then [] else keep (λ n. is_unset (environment n)) names

-- The results of calls one after another.
unfoldable pub get_all : List Vault → LoginSession → List (Result SecretError Text)
get_all [] s = []
get_all (v ∷ vs) s = let (r, after) = get_secret v s in r ∷ get_all vs after

abbrev pub IsLoginFailed : Result SecretError Text → Type 0
IsLoginFailed r = r ≡ err login_failed

rejected_stays : (vs : List Vault) → All IsLoginFailed (get_all vs rejected)
unfolding get_all get_secret ready
rejected_stays [] = tt
rejected_stays (v ∷ vs) = (refl, rejected_stays vs)

read_last-failed :
    (secret : Option Text) (login : Bool)
    → (read_last secret (ready login no_session)).0 ≡ err login_failed
    → (read_last secret (ready login no_session)).1 ≡ rejected
unfolding ready
read_last-failed secret false h = refl
read_last-failed (some t) true h = cc
read_last-failed none true h = cc

read_over-failed :
    (v : Vault) (secret : Option Text)
    → v.secret ≡ secret
    → (read_over v (true, logged_in)).0 ≡ err login_failed
    → (read_over v (true, logged_in)).1 ≡ rejected
read_over-failed v (some t) e h = cc (rw e at h)
read_over-failed v none e h = rw e (read_last-failed v.second_secret v.second_login (rw e at h))

rejected-after :
    (v : Vault) (s : LoginSession)
    → (get_secret v s).0 ≡ err login_failed
    → (get_secret v s).1 ≡ rejected
unfolding get_secret ready
rejected-after v rejected h = refl
rejected-after v logged_in h = read_over-failed v v.secret refl h
rejected-after v no_session h = elim (Bool-cases v.login) [
  | inl answered ↦ rw answered (read_over-failed v v.secret refl (rw answered at h))
  | inr refused ↦ rw refused refl
]

-- One login that fails is never made up for: every later `get` fails with it too, whatever the vault answers by then, as
-- the rejected promise stays the session. The calls come one after another.
pub get_all-failed :
    (v : Vault) (vs : List Vault) (s : LoginSession)
    → (get_secret v s).0 ≡ err login_failed
    → All IsLoginFailed (get_all vs (get_secret v s).1)
get_all-failed v vs s h = rw (rejected-after v s h) (rejected_stays vs)

set_read : (o : Option Text) → is_unset o ≡ false → (t : Text) × (from_environment_or_fail o ≡ ok t)
unfolding from_environment_or_fail
set_read none h = cc
set_read (some []) h = cc
set_read (some (c ∷ t)) h = (c ∷ t, refl)

-- When nothing is reported as missing, each of the secrets can be read from the environment.
pub missing-none :
    (environment : ℕ → Option Text) (names : List ℕ)
    → missing_environment_secrets true environment names ≡ []
    → All (λ n. (t : Text) × (from_environment_or_fail (environment n) ≡ ok t)) names
unfolding missing_environment_secrets
missing-none environment [] h = tt
missing-none environment (n ∷ names) h = elim (Bool-cases (is_unset (environment n))) [
  | inl unset ↦ cc (rw unset at h)
  | inr set ↦ (set_read (environment n) set, missing-none environment names (rw set at h))
]
