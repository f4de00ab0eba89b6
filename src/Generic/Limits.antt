-- ===== src/Generic/Limits.antt =====
-- The limit that a throttled route keeps (src/generic/rate-limit/redis-throttler.storage.ts), against a reference that remembers
-- every call that was let through.
use marketplace_api_v.Common.{
  ℕ, ◌+◌, ◌≤◌, ◌≡◌, refl, Bool, true, false, ◌&&◌, Option, none, some, List, [], ◌∷◌, arith, ltb,
  leb, ◌==◌, if◌then◌else◌, length, Table, lookup, put, lookup-put, Bool-cases, inl, inr, ◌∙◌,
}
use marketplace_api_v.Generic.RateLimit.{Window, ScriptReply, is_recent, trim, increment}
use marketplace_api_v.Generic.Windows.{
  Hit, passes, note_passed, recent, IsSound, hits_of, IsStep, sliding_window-IsStep,
}

module _ (window limit : ℕ) where
  -- The calls that `increment` lets through, newest first, after those of `log`.
  unfoldable pub let_through : List Hit → Table Window → List Hit → List Hit
  let_through [] store log = log
  let_through (h ∷ hits) store log =
      let (answer, after) = increment window limit h.key h.now store in
      let_through hits after (note_passed h (passes answer) log)

  -- The reference: a call passes when fewer than `limit` calls of its key have passed within the window before it.
  unfoldable pub reference : List Hit → List Hit → List Hit
  reference [] log = log
  reference (h ∷ hits) log =
      reference hits (note_passed h (ltb (recent window h.key h.now log) limit) log)

-- The clock does not run backwards.
abbrev pub IsOrdered : ℕ → List Hit → Type 0
IsOrdered last [] = Unit
IsOrdered last (h ∷ hits) = (last ≤ h.now) × IsOrdered h.now hits

-- The store and the log agree, from a time on.
abbrev IsSynced : ℕ → ℕ → Table Window → List Hit → Type 0
IsSynced window last store log =
    (k : ℕ)
    → IsSound window last (lookup k store)
      × ((t : ℕ)
          → last ≤ t
          → recent window k t log ≡ length (trim window t (hits_of (lookup k store))))

recent-note_other :
    (window k t : ℕ) (h : Hit) (b : Bool) (log : List Hit)
    → (h.key == k) ≡ false
    → recent window k t (note_passed h b log) ≡ recent window k t log
recent-note_other window k t h true log e = rw e (omega arith)
recent-note_other window k t h false log e = refl

IsSound-later :
    (window last now : ℕ) (o : Option Window)
    → last ≤ now
    → IsSound window last o
    → IsSound window now o
IsSound-later window last now none le v = tt
IsSound-later window last now (some w) le v = (v.0, omega (arith, v.1))

module _ (window limit : ℕ) where
  step-IsSynced :
      (last : ℕ) (store : Table Window) (log : List Hit) (h : Hit) (r : ScriptReply × Window)
      → last ≤ h.now
      → IsSynced window last store log
      → IsStep window limit h.now (lookup h.key store) log h r
      → IsSynced window h.now
          (put h.key r.1 store)
          (note_passed h (ltb (recent window h.key h.now log) limit) log)
  step-IsSynced last store log h r le sync st k = elim (Bool-cases (h.key == k)) [
    | inl same ↦
        let e : h.key ≡ k = ground arith in
        rw (lookup-put h.key k r.1 store, same) (rw (← e) (st.sound, st.same_count))
    | inr other ↦
        rw (lookup-put h.key k r.1 store, other)
          (
            IsSound-later window last h.now (lookup k store) le (sync k).0,
            λ t later. recent-note_other window k t h _ log other ∙ (sync k).1 t (omega arith),
          )
  ]

  let_through-reference :
      (hits : List Hit) (last : ℕ) (store : Table Window) (log : List Hit)
      → IsOrdered last hits
      → IsSynced window last store log
      → let_through window limit hits store log ≡ reference window limit hits log
  unfolding let_through reference increment
  let_through-reference [] last store log o sync = refl
  let_through-reference (h ∷ hits) last store log o sync =
      let st =
        sliding_window-IsStep window limit last h.now (lookup h.key store) log h o.0 refl
          (sync h.key).0 (sync h.key).1 in
      rw st.same_answer
        (let_through-reference hits h.now _ _ o.1 (step-IsSynced last store log h _ o.0 sync st))

  -- However the calls of several keys are interleaved, `increment` lets through the calls that the reference does: those that
  -- find fewer than `limit` calls of their key let through within the window before them. The clock of Redis does not
  -- run backwards.
  pub let_through-eq-reference :
      (hits : List Hit)
      → IsOrdered 0 hits
      → let_through window limit hits [] [] ≡ reference window limit hits []
  unfolding trim
  let_through-eq-reference hits o = let_through-reference hits 0 [] [] o (λ k. (tt, nothing k))
    where
      nothing :
          (k t : ℕ) → 0 ≤ t → recent window k t [] ≡ length (trim window t (hits_of (lookup k [])))
      nothing k t le = refl

-- How many calls of a key a list holds that came in the window that ends at a time.
abbrev pub within : ℕ → ℕ → ℕ → List Hit → ℕ
within window key t [] = 0
within window key t (h ∷ log) =
    (if (h.key == key) && (leb h.now t && is_recent window t h.now) then 1 else 0)
    + within window key t log

within-le-recent :
    (window key now t : ℕ) (log : List Hit)
    → now ≤ t
    → within window key t log ≤ recent window key now log
within-le-recent window key now t [] le = omega arith
within-le-recent window key now t (h ∷ log) le =
    ground (arith, within-le-recent window key now t log le)

module _ (window limit key t : ℕ) where
  within-note_passed :
      (h : Hit) (log : List Hit)
      → within window key t log ≤ limit
      → within window key t (note_passed h (ltb (recent window h.key h.now log) limit) log) ≤ limit
  within-note_passed h log le = elim (Bool-cases (ltb (recent window h.key h.now log) limit)) [
    | inr refused ↦ rw refused le
    | inl passed ↦ rw passed (ground (arith, within-le-recent window key h.now t log))
  ]

  within-reference :
      (hits log : List Hit)
      → within window key t log ≤ limit
      → within window key t (reference window limit hits log) ≤ limit
  unfolding reference
  within-reference [] log le = le
  within-reference (h ∷ hits) log le = within-reference hits _ (within-note_passed h log le)

  -- Whatever calls of whatever keys arrive, at most `limit` calls of a key are let through in any span of time as long as
  -- the window. The clock of Redis does not run backwards.
  pub within-let_through :
      (hits : List Hit)
      → IsOrdered 0 hits
      → within window key t (let_through window limit hits [] []) ≤ limit
  within-let_through hits o =
      rw (let_through-eq-reference window limit hits o) (within-reference hits [] (omega arith))
