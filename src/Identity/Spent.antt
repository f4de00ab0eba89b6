-- ===== src/Identity/Spent.antt =====
-- The state of a sign-in is spent once it has given tokens (src/identity/command-handler/identity-oidc-sign-in.command-handler.ts).
use marketplace_api_v.Common.{
  ℕ, ◌≡◌, refl, ap, ◌∙◌, Option, none, some, [], ◌∷◌, ◌==◌, Text, Bool-cases, inl, inr, ok, lookup,
  Table,
}
use marketplace_api_v.Identity.Store.{Provider}
use marketplace_api_v.Identity.Commands.{TokenPair, Setting, SignInAttempt, Auth}
use marketplace_api_v.Identity.Accounts.{Fresh}
use marketplace_api_v.Identity.Attempts.{Grant, forget, take_attempt}
use marketplace_api_v.Identity.Oidc.{execute_sign_in}
use marketplace_api_v.Identity.Revoked.{IsErr}
use marketplace_api_v.Identity.SignedIn.{execute_sign_in-SignedIn}

lookup-forget : (s : ℕ) (t : Table SignInAttempt) → lookup s (forget s t) ≡ none
lookup-forget s [] = refl
lookup-forget s ((k, v) ∷ t) = elim (Bool-cases (k == s)) [
  | inl same ↦ rw same (lookup-forget s t)
  | inr other ↦ rw (other, other) (lookup-forget s t)
]

module _ (hash : ℕ → ℕ) (fold : Text → Text) where
  unknown_state-IsErr :
      (provider : Provider) (s : ℕ) (browser : Option ℕ) (grant : SignInAttempt → Grant)
      (fresh : Fresh) (g : Setting) (a : Auth)
      → lookup s a.attempts ≡ none
      → IsErr (execute_sign_in hash fold provider (some s) browser grant fresh g a).0
  unfolding execute_sign_in take_attempt
  unknown_state-IsErr provider s none grant fresh g a gone = tt
  unknown_state-IsErr provider s (some b) grant fresh g a gone = elim (Bool-cases (s == b)) [
    | inr other ↦ rw other tt
    | inl same ↦ elim (Bool-cases g.redis_answers) [
      | inl up ↦ rw (same, up, gone) tt
      | inr down ↦ rw (same, down) tt
    ]
  ]

  -- A callback gives tokens once: when it has, presenting its state again is refused, whoever does it, whatever Redis and the
  -- provider answer, and for whichever provider.
  pub execute_sign_in-again :
      (provider second : Provider) (s : ℕ) (browser other : Option ℕ)
      (grant grant' : SignInAttempt → Grant) (fresh fresh' : Fresh) (g later : Setting)
      (a after : Auth) (p : TokenPair)
      → execute_sign_in hash fold provider (some s) browser grant fresh g a ≡ (ok p, after)
      → IsErr (execute_sign_in hash fold second (some s) other grant' fresh' later after).0
  execute_sign_in-again provider second s browser other grant grant' fresh fresh' g later a after p
        h =
      let done =
        execute_sign_in-SignedIn hash fold provider grant fresh g after p (some s) browser a h in
      let same : done.state ≡ s = cc (done.same_state) in
      unknown_state-IsErr second s other grant' fresh' later after (
        ap (lookup s) (done.spent ∙ ap (λ (x : ℕ). forget x a.attempts) same)
        ∙ lookup-forget s a.attempts)
