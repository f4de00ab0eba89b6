-- ===== src/Generic/Windows.antt =====
-- One call on the window of its key (src/generic/rate-limit/redis-throttler.storage.ts): what stays of the scores, and that the
-- decision is that of the log of all calls that were let through.
use marketplace_api_v.Common.{
  ℕ, ◌+◌, ◌≤◌, ◌≡◌, refl, Bool, true, false, not, ◌&&◌, Option, none, some, List, [], ◌∷◌, arith,
  ltb, ◌==◌, if◌then◌else◌, length, All, Bool-cases, inl, inr, sym, ◌∙◌, ap,
}
use marketplace_api_v.Generic.RateLimit.{
  Window, StorageRecord, ScriptReply, current, is_recent, trim, add_score, reply_of, expiry_of,
  sliding_window, to_record,
}

-- A call: its key and its time.
pub record Hit : Type 0 where
  pub key : ℕ
  pub now : ℕ

abbrev pub passes : Option StorageRecord → Bool
passes none = false
passes (some r) = not r.is_blocked

-- The calls of a list that were let through, with the store that they leave behind.
abbrev pub note_passed : Hit → Bool → List Hit → List Hit
note_passed h true log = h ∷ log
note_passed h false log = log

-- How many calls of a key are less than a window old.
abbrev pub recent : ℕ → ℕ → ℕ → List Hit → ℕ
recent window key now [] = 0
recent window key now (h ∷ log) =
    (if (h.key == key) && is_recent window now h.now then 1 else 0) + recent window key now log

-- What a stored window keeps to: its scores are gone when the key is, and the key goes a window after the last call.
abbrev pub IsSound : ℕ → ℕ → Option Window → Type 0
IsSound window last none = Unit
IsSound window last (some w) =
    All (λ (s : ℕ). s + window ≤ w.expires_at) w.hits × (w.expires_at ≤ last + window)

abbrev pub hits_of : Option Window → List ℕ
hits_of none = []
hits_of (some w) = w.hits

trim-none :
    (window now expiry : ℕ) (hits : List ℕ)
    → All (λ (s : ℕ). s + window ≤ expiry) hits
    → expiry ≤ now
    → trim window now hits ≡ []
unfolding trim
trim-none window now expiry [] a le = refl
trim-none window now expiry (s ∷ hits) a le =
    ground (arith, trim-none window now expiry hits a.1 le, a.0)

trim-trim :
    (window now later : ℕ) (hits : List ℕ)
    → now ≤ later
    → trim window later (trim window now hits) ≡ trim window later hits
unfolding trim
trim-trim window now later [] le = refl
trim-trim window now later (s ∷ hits) le = ground (arith, trim-trim window now later hits le)

trim-current :
    (window last now later : ℕ) (o : Option Window)
    → IsSound window last o
    → now ≤ later
    → trim window later (trim window now (current now o)) ≡ trim window later (hits_of o)
unfolding trim
trim-current window last now later none v le = trim-trim window now later [] le
trim-current window last now later (some w) v le = elim (Bool-cases (ltb now w.expires_at)) [
  | inl alive ↦ rw alive (trim-trim window now later w.hits le)
  | inr gone ↦ rw gone (
      trim-trim window now later [] le
      ∙ sym (trim-none window later w.expires_at w.hits v.0 (ground arith)))
]

length-trim-add_score :
    (window later now : ℕ) (hits : List ℕ)
    → length (trim window later (add_score now hits))
      ≡ (if is_recent window later now then 1 else 0) + length (trim window later hits)
unfolding trim add_score
length-trim-add_score window later now [] = ground arith
length-trim-add_score window later now (s ∷ hits) =
    ground (arith, length-trim-add_score window later now hits)

All-current :
    (P : ℕ → Type 0) (now : ℕ) (o : Option Window) → All P (hits_of o) → All P (current now o)
All-current P now none a = tt
All-current P now (some w) a = elim (Bool-cases (ltb now w.expires_at)) [
  | inl alive ↦ rw alive a
  | inr gone ↦ rw gone tt
]

All-trim :
    (P : ℕ → Type 0) (window now : ℕ) (hits : List ℕ) → All P hits → All P (trim window now hits)
unfolding trim
All-trim P window now [] a = tt
All-trim P window now (s ∷ hits) a = elim (Bool-cases (is_recent window now s)) [
  | inl young ↦ rw young (a.0, All-trim P window now hits a.1)
  | inr old ↦ rw old (All-trim P window now hits a.1)
]

All-add_score :
    (P : ℕ → Type 0) (score : ℕ) (hits : List ℕ)
    → P score
    → All P hits
    → All P (add_score score hits)
unfolding add_score
All-add_score P score [] p a = (p, tt)
All-add_score P score (s ∷ hits) p a = elim (Bool-cases (ltb score s)) [
  | inl before ↦ rw before (p, a)
  | inr after ↦ rw after (a.0, All-add_score P score hits p a.1)
]

All-le : {P Q : ℕ → Type 0} (f : (a : ℕ) → P a → Q a) (xs : List ℕ) → All P xs → All Q xs
All-le f [] a = tt
All-le f (x ∷ xs) a = (f x a.0, All-le f xs a.1)

hits_bound :
    (window last : ℕ) (o : Option Window)
    → IsSound window last o
    → All (λ (s : ℕ). s + window ≤ expiry_of o) (hits_of o) × (expiry_of o ≤ last + window)
hits_bound window last none v = (tt, omega arith)
hits_bound window last (some w) v = v

passes-reply_of :
    (window now score : ℕ) (hits : List ℕ)
    → passes (to_record (reply_of window now true (add_score score hits))) ≡ true
unfolding add_score
passes-reply_of window now score [] = refl
passes-reply_of window now score (s ∷ hits) = ground arith

blocks-reply_of :
    (window now : ℕ) (hits : List ℕ) → passes (to_record (reply_of window now false hits)) ≡ false
blocks-reply_of window now [] = refl
blocks-reply_of window now (s ∷ hits) = refl

-- One call on the window of its key.
pub record IsStep (window limit now : ℕ) (o : Option Window) (log : List Hit) (h : Hit)
    (r : ScriptReply × Window) : Type 0 where
  pub same_answer : passes (to_record r.0) ≡ ltb (recent window h.key now log) limit
  pub sound : IsSound window now (some r.1)
  pub same_count :
      (t : ℕ)
      → now ≤ t
      → recent window h.key t (note_passed h (ltb (recent window h.key now log) limit) log)
        ≡ length (trim window t r.1.hits)

module _ (window limit last now : ℕ) (o : Option Window) (log : List Hit) (h : Hit)
    (le : last ≤ now) (at_now : h.now ≡ now) (v : IsSound window last o)
    (agree : (t : ℕ)
      → last ≤ t
      → recent window h.key t log ≡ length (trim window t (hits_of o))) where
  length-trimmed : length (trim window now (current now o)) ≡ recent window h.key now log
  length-trimmed =
      ap (λ (l : List ℕ). length l)
        (sym (trim-trim window now now (current now o) (omega arith))
          ∙ trim-current window last now now o v (omega arith))
      ∙ sym (agree now le)

  trimmed_bound : All (λ (s : ℕ). s + window ≤ expiry_of o) (trim window now (current now o))
  trimmed_bound =
      All-trim _ window now (current now o) (All-current _ now o (hits_bound window last o v).0)

  trimmed_later :
      (t : ℕ)
      → now ≤ t
      → length (trim window t (trim window now (current now o))) ≡ recent window h.key t log
  trimmed_later t later =
      ap (λ (l : List ℕ). length l) (trim-current window last now t o v later)
      ∙ sym (agree t (omega arith))

  pub sliding_window-IsStep : IsStep window limit now o log h (sliding_window window limit now o)
  unfolding sliding_window
  sliding_window-IsStep = elim (Bool-cases (ltb (recent window h.key now log) limit)) [
    | inl passed ↦
        rw (length-trimmed, passed)
          (record {
            same_answer =
                rw passed (passes-reply_of window now now (trim window now (current now o)));
            sound = (
              All-add_score (λ (s : ℕ). s + window ≤ now + window) now _ (omega arith)
                  (All-le (λ s b. omega (arith, b, (hits_bound window last o v).1)) _
                    trimmed_bound),
              omega arith,
            );
            same_count = λ t later. rw passed (
                rw
                  (
                    length-trim-add_score window t now (trim window now (current now o)),
                    trimmed_later t later,
                    at_now,
                  )
                  (ground arith));
          })
    | inr refused ↦
        rw (length-trimmed, refused)
          (record {
            same_answer = rw refused (blocks-reply_of window now (trim window now (current now o)));
            sound = (trimmed_bound, omega (arith, (hits_bound window last o v).1));
            same_count = λ t later. rw refused (sym (trimmed_later t later));
          })
  ]
