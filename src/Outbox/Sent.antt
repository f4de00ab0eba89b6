-- ===== src/Outbox/Sent.antt =====
-- What the relay has sent (src/order/service/order-outbox-relay.service.ts): a row is marked only once Kafka holds it, and
-- a batch is sent in order up to its first failure.
use marketplace_api_v.Common.{
  ℕ, ◌≡◌, refl, sym, ◌∙◌, Bool, true, ◌||◌, Option, none, some, List, [], ◌∷◌, ◌++◌, map, arith,
  ◌==◌, inl, inr, any, All, Bool-cases, Text,
}
use marketplace_api_v.Outbox.Store.{
  Row, is_published, claim_unpublished, mark_published, record_failure,
}
use marketplace_api_v.Outbox.Relay.{
  Publication, accepted, failed, accepted_unheard, Batch, Tick, Relay, batch_size, add_row,
  publish_all, note_failure, mark_batch, batch_of, relay_batch, relay, relay_all,
}

module _ {E : Type 0} where
  abbrev pub is_in : ℕ → List (Row E) → Bool
  is_in id = any (λ (l : Row E). l.id == id)

  -- A row that is marked stands in the log.
  abbrev pub IsLogged : List (Row E) → Row E → Type 0
  IsLogged log r = is_published r ≡ true → is_in r.id log ≡ true

  pub any-append :
      (p : Row E → Bool) (xs ys : List (Row E)) → any p (xs ++ ys) ≡ (any p xs || any p ys)
  any-append p [] ys = refl
  any-append p (x ∷ xs) ys = rw (any-append p xs ys) (ground arith)

  pub any-map_id :
      (id : ℕ) (rows : List (Row E))
      → any (λ i. i == id) (map (λ (s : Row E). s.id) rows) ≡ is_in id rows
  any-map_id id [] = refl
  any-map_id id (r ∷ rows) = rw (any-map_id id rows) refl

  add_row-held :
      (p : Row E → Bool) (r : Row E) (a : Publication) (rest : Batch E)
      → (any p rest.published ≡ true → any p rest.held ≡ true)
      → any p (add_row r a rest).published ≡ true
      → any p (add_row r a rest).held ≡ true
  add_row-held p r accepted rest ih h = ground (arith, ih)
  add_row-held p r (failed m) rest ih h = h
  add_row-held p r (accepted_unheard m) rest ih h = cc

  -- What is known to be published is held.
  published-held :
      (answer : Row E → Publication) (p : Row E → Bool) (rows : List (Row E))
      → any p (publish_all answer rows).published ≡ true
      → any p (publish_all answer rows).held ≡ true
  unfolding publish_all
  published-held answer p [] h = h
  published-held answer p (r ∷ rows) h =
      add_row-held p r (answer r) (publish_all answer rows) (published-held answer p rows) h

  failure-IsLogged :
      (log : List (Row E)) (id : ℕ) (m : Text) (rows : List (Row E))
      → All (IsLogged log) rows
      → All (IsLogged log) (record_failure id m rows)
  unfolding record_failure
  failure-IsLogged log id m [] h = tt
  failure-IsLogged log id m (r ∷ rows) h = (
    elim (Bool-cases (r.id == id)) [ inl same ↦ rw same h.0 | inr other ↦ rw other h.0 ],
    failure-IsLogged log id m rows h.1,
  )

  -- Marking rows whose ids the longer log has keeps the rows logged.
  mark-IsLogged :
      (log more : List (Row E)) (now : ℕ) (ids : List ℕ) (rows : List (Row E))
      → ((id : ℕ) → any (λ i. i == id) ids ≡ true → is_in id more ≡ true)
      → All (IsLogged log) rows
      → All (IsLogged (log ++ more)) (mark_published now ids rows)
  unfolding mark_published
  mark-IsLogged log more now ids [] known h = tt
  mark-IsLogged log more now ids (r ∷ rows) known h = (
    elim (Bool-cases (any (λ i. i == r.id) ids)) [
      | inl marked ↦ rw marked (λ k.
          ground (arith, any-append (λ (l : Row E). l.id == r.id) log more, known r.id marked))
      | inr unmarked ↦
          rw unmarked
            (λ k. ground (arith, any-append (λ (l : Row E). l.id == r.id) log more, h.0 k))
    ],
    mark-IsLogged log more now ids rows known h.1,
  )

  longer-IsLogged :
      (log more : List (Row E)) (rows : List (Row E))
      → All (IsLogged log) rows
      → All (IsLogged (log ++ more)) rows
  longer-IsLogged log more [] h = tt
  longer-IsLogged log more (r ∷ rows) h = (
    λ k. ground (arith, any-append (λ (l : Row E). l.id == r.id) log more, h.0 k),
    longer-IsLogged log more rows h.1,
  )

  note-IsLogged :
      (log : List (Row E)) (f : Option (ℕ × Text)) (rows : List (Row E))
      → All (IsLogged log) rows
      → All (IsLogged log) (note_failure f rows)
  note-IsLogged log none rows h = h
  note-IsLogged log (some (id, m)) rows h = failure-IsLogged log id m rows h

  batch-IsLogged :
      (log more : List (Row E)) (now : ℕ) (published rows : List (Row E))
      → ((id : ℕ) → is_in id published ≡ true → is_in id more ≡ true)
      → All (IsLogged log) rows
      → All (IsLogged (log ++ more)) (mark_batch now published rows)
  batch-IsLogged log more now [] rows known h = longer-IsLogged log more rows h
  batch-IsLogged log more now (r ∷ published) rows known h =
      mark-IsLogged log more now (map (λ (s : Row E). s.id) (r ∷ published)) rows
        (λ id e. known id (sym (any-map_id id (r ∷ published)) ∙ e)) h

  relay-IsLogged :
      (t : Tick E) (s : Relay E)
      → All (IsLogged s.log) s.rows
      → All (IsLogged (relay t s).log) (relay t s).rows
  unfolding relay relay_batch batch_of
  relay-IsLogged t s h = elim (Bool-cases s.relaying) [
    | inl busy ↦ rw (relay, busy) h
    | inr free ↦
        rw (relay, free)
          (elim (Bool-cases t.commits) [
            | inl commits ↦ rw commits (
                batch-IsLogged s.log (batch_of t s.rows).held t.now (batch_of t s.rows).published
                  (note_failure (batch_of t s.rows).failure s.rows)
                  (λ id.
                    published-held t.answer (λ (l : Row E). l.id == id)
                      (claim_unpublished t.locked batch_size s.rows))
                  (note-IsLogged s.log (batch_of t s.rows).failure s.rows h))
            | inr rolls_back ↦
                rw rolls_back (longer-IsLogged s.log (batch_of t s.rows).held s.rows h)
          ])
  ]

  -- However many ticks the relay runs, whatever Kafka answers, whatever other transactions lock and whichever batches are
  -- rolled back, a row is marked as published only if Kafka holds it, provided that this was so at the start.
  pub relay_all-IsLogged :
      (ts : List (Tick E)) (s : Relay E)
      → All (IsLogged s.log) s.rows
      → All (IsLogged (relay_all ts s).log) (relay_all ts s).rows
  unfolding relay_all
  relay_all-IsLogged [] s h = h
  relay_all-IsLogged (t ∷ ts) s h = relay_all-IsLogged ts (relay t s) (relay-IsLogged t s h)
