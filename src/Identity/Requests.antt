-- ===== src/Identity/Requests.antt =====
-- The commands of the identity service, one after another, keep its tables consistent (src/identity/command-handler).
use marketplace_api_v.Common.{ℕ, Option, List, [], ◌∷◌, Text}
use marketplace_api_v.Identity.Store.{Provider, Identity}
use marketplace_api_v.Identity.Commands.{
  Setting, SignInAttempt, Auth, execute_refresh, execute_logout,
}
use marketplace_api_v.Identity.Forms.{RegisterInput, LoginInput}
use marketplace_api_v.Identity.Accounts.{Argon, Fresh}
use marketplace_api_v.Identity.Register.{execute_register, execute_login}
use marketplace_api_v.Identity.Attempts.{Grant}
use marketplace_api_v.Identity.Oidc.{execute_sign_in}

-- What an identity service is asked.
pub data Command : Type 0 where
  register_identity : RegisterInput → Fresh → Command
  login_identity : LoginInput → Command
  refresh_tokens logout_identity : ℕ → Command
  sign_in_callback : Provider → Option ℕ → Option ℕ → (SignInAttempt → Grant) → Fresh → Command

module _ (hash : ℕ → ℕ) (argon : Argon) (fold : Text → Text) where
  -- The state after a request, however it ends.
  abbrev pub run : Command → Setting → Auth → Auth
  run (register_identity input fresh) g a = record a {
    db = (execute_register hash argon fold input fresh g a.db).1;
  }
  run (login_identity input) g a = record a { db = (execute_login hash argon fold input g a.db).1 }
  run (refresh_tokens token) g a = (execute_refresh hash token g a).1
  run (logout_identity token) g a = (execute_logout hash token g a).1
  run (sign_in_callback provider given browser grant fresh) g a =
      (execute_sign_in hash fold provider given browser grant fresh g a).1

  abbrev pub run_all : List (Command × Setting) → Auth → Auth
  run_all [] a = a
  run_all ((c, g) ∷ cs) a = run_all cs (run c g a)
