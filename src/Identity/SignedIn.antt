-- ===== src/Identity/SignedIn.antt =====
-- What a callback of an external provider must show before it gives tokens (src/identity/command-handler/identity-oidc-sign-in.command-handler.ts),
-- and that it gives them once.
use marketplace_api_v.Common.{
  [], ◌∷◌, ℕ, ◌<◌, ◌≡◌, refl, sym, ap, ◌∙◌, subst, Bool, true, false, Option, none, some, arith,
  ◌==◌, ltb, Text, Bool-cases, inl, inr, Result, ok, err, lookup, ok_pair_inv,
}
use marketplace_api_v.Identity.Store.{Provider, IdentityDb, IdentityError}
use marketplace_api_v.Identity.Commands.{TokenPair, Setting, SignInAttempt, Auth}
use marketplace_api_v.Identity.Accounts.{Fresh, same_provider}
use marketplace_api_v.Identity.Register.{conflict_of}
use marketplace_api_v.Identity.Attempts.{
  OidcIdentity, Claims, Grant, no_configuration, refused, failed, granted, email_of, exchange,
  forget, not_expired, take_attempt, without_attempt,
}
use marketplace_api_v.Identity.Oidc.{
  enter, on_db, enter_verified, enter_exchanged, enter_taken, execute_sign_in,
}
use marketplace_api_v.Identity.Registered.{conflict_of_inv}
use marketplace_api_v.Identity.Linked.{Entered, enter-Entered}

-- What stands behind a pair that a callback was given.
pub record SignedIn (fold : Text → Text) (provider : Provider) (given browser : Option ℕ)
    (grant : SignInAttempt → Grant) (now : ℕ) (a : Auth) (p : TokenPair) (after : Auth)
    : Type 0 where
  pub state : ℕ
  pub same_state : given ≡ some state
  pub same_browser : browser ≡ some state
  pub attempt : SignInAttempt
  pub started : lookup state a.attempts ≡ some attempt
  pub in_time : now < attempt.until
  pub claims : Claims
  pub exchanged : grant attempt ≡ granted (some claims)
  pub email : Text
  pub mailed : email_of claims.email ≡ some email
  pub verified : claims.email_verified ≡ true
  pub entered : Entered fold provider claims.sub email attempt.link_identity a.db p after.db
  pub spent : after.attempts ≡ forget state a.attempts

not_expired_inv :
    (now : ℕ) (o : Option SignInAttempt) (t : SignInAttempt)
    → not_expired now o ≡ some t
    → (o ≡ some t) × (now < t.until)
not_expired_inv now none t h = cc
not_expired_inv now (some u) t h = elim (Bool-cases (ltb now u.until)) [
  | inr late ↦ cc (rw late at h)
  | inl early ↦
      let e : some u ≡ some t = rw early at h in
      let same : u ≡ t = cc in (e, subst (λ (x : SignInAttempt). now < x.until) same (ground arith))
]

exchange_inv :
    (x : Grant) (i : OidcIdentity)
    → exchange x ≡ ok i
    → (c : Claims) × (x ≡ granted (some c))
      × (c.sub ≡ i.subject)
      × (email_of c.email ≡ i.email)
      × (c.email_verified ≡ i.email_verified)
unfolding exchange
exchange_inv no_configuration i h = cc
exchange_inv refused i h = cc
exchange_inv failed i h = cc
exchange_inv (granted none) i h = cc
exchange_inv (granted (some c)) i h =
    let e : record { subject = c.sub; email = email_of c.email; email_verified = c.email_verified }
        ≡ i =
      cc in
    (
      c,
      refl,
      ap (λ (x : OidcIdentity). x.subject) e,
      ap (λ (x : OidcIdentity). x.email) e,
      ap (λ (x : OidcIdentity). x.email_verified) e,
    )

module _ (hash : ℕ → ℕ) (fold : Text → Text) where
  on_db_inv :
      (a after : Auth) (r : Result IdentityError TokenPair × IdentityDb) (p : TokenPair)
      → on_db hash fold a r ≡ (ok p, after)
      → (r ≡ (ok p, after.db)) × (a.attempts ≡ after.attempts)
  on_db_inv a after (ok q, db) p h =
      let parts = ok_pair_inv q p (record a { db = db }) after h in
      ((λ k. (ok (parts.0 k), (parts.1 k).db)), ap (λ (x : Auth). x.attempts) parts.1)
  on_db_inv a after (err e, db) p h = cc

  -- A callback that the checks on the provider's answer let through.
  enter_verified_inv :
      (provider : Provider) (external : OidcIdentity) (to : Option ℕ) (fresh : Fresh) (g : Setting)
      (a after : Auth) (p : TokenPair) (o : Option Text) (v : Bool)
      → enter_verified hash fold provider external to fresh g a o v ≡ (ok p, after)
      → (e : Text) × (o ≡ some e)
        × (v ≡ true)
        × Entered fold provider external.subject e to a.db p after.db
        × (a.attempts ≡ after.attempts)
  enter_verified_inv provider external to fresh g a after p none v h = cc
  enter_verified_inv provider external to fresh g a after p (some []) v h = cc
  enter_verified_inv provider external to fresh g a after p (some (c ∷ t)) false h = cc
  enter_verified_inv provider external to fresh g a after p (some (c ∷ t)) true h =
      let (made, same) =
        on_db_inv a after (conflict_of (enter hash fold provider external (c ∷ t) to fresh g a.db))
          p h in
      (
        c ∷ t,
        refl,
        refl,
        enter-Entered hash fold provider g external (c ∷ t) to fresh a.db after.db p
            (conflict_of_inv _ p after.db made),
        same,
      )

  enter_exchanged_inv :
      (provider : Provider) (to : Option ℕ) (fresh : Fresh) (g : Setting) (a after : Auth)
      (p : TokenPair) (r : Result IdentityError OidcIdentity)
      → enter_exchanged hash fold provider to fresh g a r ≡ (ok p, after)
      → (i : OidcIdentity) × (e : Text) × (r ≡ ok i)
        × (i.email ≡ some e)
        × (i.email_verified ≡ true)
        × Entered fold provider i.subject e to a.db p after.db
        × (a.attempts ≡ after.attempts)
  enter_exchanged_inv provider to fresh g a after p (err x) h = cc
  enter_exchanged_inv provider to fresh g a after p (ok i) h =
      let (e, mail, verified, entered, same) =
        enter_verified_inv provider i to fresh g a after p i.email i.email_verified h in
      (i, e, refl, mail, verified, entered, same)

  module _ (provider : Provider) (grant : SignInAttempt → Grant) (fresh : Fresh) (g : Setting)
      (after : Auth) (p : TokenPair) where
    enter_taken_inv :
        (a : Auth) (r : Result IdentityError (Option SignInAttempt) × Auth)
        → enter_taken hash fold provider grant fresh g r ≡ (ok p, after)
        → (t : SignInAttempt) × (r.0 ≡ ok (some t))
          × (enter_exchanged hash fold provider t.link_identity fresh g r.1 (exchange (grant t))
              ≡ (ok p, after))
    enter_taken_inv a (err x, b) h = cc
    enter_taken_inv a (ok none, b) h = cc
    enter_taken_inv a (ok (some t), b) h = elim (Bool-cases (same_provider t.provider provider)) [
      | inr other ↦ cc (rw other at h)
      | inl same ↦ (t, refl, rw same at h)
    ]

    take_attempt_inv :
        (s : ℕ) (a : Auth) (t : SignInAttempt)
        → (take_attempt s g a).0 ≡ ok (some t)
        → (lookup s a.attempts ≡ some t)
          × (g.now < t.until)
          × ((take_attempt s g a).1 ≡ without_attempt s a)
    unfolding take_attempt
    take_attempt_inv s a t h = elim (Bool-cases g.redis_answers) [
      | inr down ↦ cc (rw (take_attempt, down) at h)
      | inl up ↦
          let e : ◌≡◌ {A = Result IdentityError (Option SignInAttempt)}
              (ok (not_expired g.now (lookup s a.attempts))) (ok (some t)) =
            rw (take_attempt, up) at h in
          let held = not_expired_inv g.now (lookup s a.attempts) t (cc (e)) in
          (held.0, held.1, rw up refl)
    ]

    exchanged-SignedIn :
        (s : ℕ) (a : Auth) (t : SignInAttempt)
        → lookup s a.attempts ≡ some t
        → g.now < t.until
        → enter_exchanged hash fold provider t.link_identity fresh g
            (without_attempt s a)
            (exchange (grant t))
          ≡ (ok p, after)
        → SignedIn fold provider (some s) (some s) grant g.now a p after
    exchanged-SignedIn s a t started in_time h =
        let (i, e, answered, mail, verified, entered, same) =
          enter_exchanged_inv provider t.link_identity fresh g (without_attempt s a) after p
            (exchange (grant t)) h in
        let (c, from, subject, email, checked) = exchange_inv (grant t) i answered in
        record {
          state = s;
          same_state = refl;
          same_browser = refl;
          attempt = t;
          started = started;
          in_time = in_time;
          claims = c;
          exchanged = from;
          email = e;
          mailed = email ∙ mail;
          verified = checked ∙ verified;
          entered =
              subst (λ (x : Text). Entered fold provider x e t.link_identity a.db p after.db)
                (sym subject) entered;
          spent = sym same;
        }

    -- A callback is given tokens only when it shows that it is entitled to them. Its state is the one in the browser's cookie, and of an
    -- attempt that was started, is not spent and is not too old; the provider has answered the exchange of that attempt with
    -- claims that have a verified email. The pair is then for the identity that has the provider's account
    -- afterwards, and that identity had the account before, or it is the one that the attempt was started for
    -- to link the account to, or it is new and nobody could be found by the email. The attempt is spent.
    pub execute_sign_in-SignedIn :
        (given browser : Option ℕ) (a : Auth)
        → execute_sign_in hash fold provider given browser grant fresh g a ≡ (ok p, after)
        → SignedIn fold provider given browser grant g.now a p after
    unfolding execute_sign_in
    execute_sign_in-SignedIn none browser a h = cc
    execute_sign_in-SignedIn (some s) none a h = cc
    execute_sign_in-SignedIn (some s) (some b) a h = elim (Bool-cases (s == b)) [
      | inr other ↦ cc (rw (execute_sign_in, other) at h)
      | inl same ↦
          let e : s ≡ b = ground arith in
          let (t, taken, rest) =
            enter_taken_inv a (take_attempt s g a) (rw (execute_sign_in, same) at h) in
          let (started, in_time, left) = take_attempt_inv s a t taken in
          subst (λ (x : ℕ). SignedIn fold provider (some s) (some x) grant g.now a p after) e
            (exchanged-SignedIn s a t started in_time (rw left at rest))
    ]
