-- ===== src/Outbox/Drained.antt =====
-- A relay that meets no error empties its outbox (src/order/service/order-outbox-relay.service.ts).
use marketplace_api_v.Common.{
  ℕ, ◌≤◌, ◌≡◌, refl, sym, ◌∙◌, Bool, true, false, not, ◌&&◌, none, List, [], ◌∷◌, map, arith, ◌==◌,
  ==_refl, inl, inr, any, keep, length, All, Bool-cases,
}
use marketplace_api_v.Outbox.Store.{Row, is_published, claim_unpublished, mark_published, sort_rows}
use marketplace_api_v.Outbox.Relay.{
  Publication, accepted, Tick, Relay, batch_size, publish_all, mark_batch, batch_of, relay_batch,
  relay,
}
use marketplace_api_v.Outbox.Claimed.{take-all, any-sort_rows, length-sort_rows}
use marketplace_api_v.Outbox.Sent.{is_in, any-map_id}

module _ {E : Type 0} where
  abbrev pub is_claimable : (ℕ → Bool) → Row E → Bool
  is_claimable locked r = not (is_published r) && not (locked r.id)

  pub publish_all-accepted :
      (answer : Row E → Publication) (rows : List (Row E))
      → ((r : Row E) → answer r ≡ accepted)
      → publish_all answer rows ≡ record { held = rows; published = rows; failure = none }
  unfolding publish_all
  publish_all-accepted answer [] h = refl
  publish_all-accepted answer (r ∷ rows) h = rw (h r, publish_all-accepted answer rows h) refl

  mark_published-none : (now : ℕ) (rows : List (Row E)) → mark_published now [] rows ≡ rows
  unfolding mark_published
  mark_published-none now [] = refl
  mark_published-none now (r ∷ rows) = rw (mark_published-none now rows) refl

  mark_batch-mark :
      (now : ℕ) (published rows : List (Row E))
      → mark_batch now published rows
        ≡ mark_published now (map (λ (s : Row E). s.id) published) rows
  mark_batch-mark now [] rows = sym (mark_published-none now rows)
  mark_batch-mark now (r ∷ published) rows = refl

  pub claim-sorted :
      (locked : ℕ → Bool) (limit : ℕ) (rows : List (Row E))
      → length (keep (is_claimable locked) rows) ≤ limit
      → claim_unpublished locked limit rows ≡ sort_rows (keep (is_claimable locked) rows)
  unfolding claim_unpublished
  claim-sorted locked limit rows h =
      take-all limit (sort_rows (keep (is_claimable locked) rows))
        (rw (length-sort_rows (keep (is_claimable locked) rows)) h)

  keep-is_in :
      (p : Row E → Bool) (id : ℕ) (x : Row E) (rows : List (Row E))
      → is_in id (keep p rows) ≡ true
      → is_in id (keep p (x ∷ rows)) ≡ true
  keep-is_in p id x rows h = elim (Bool-cases (p x)) [
    | inl kept ↦ rw kept (ground (arith, h))
    | inr dropped ↦ rw dropped h
  ]

  All-weaken :
      (P Q : Row E → Type 0) (rows : List (Row E))
      → ((r : Row E) → P r → Q r)
      → All P rows
      → All Q rows
  All-weaken P Q [] f h = tt
  All-weaken P Q (r ∷ rows) f h = (f r h.0, All-weaken P Q rows f h.1)

  kept-is_in :
      (p : Row E → Bool) (rows : List (Row E))
      → All (λ r. p r ≡ true → is_in r.id (keep p rows) ≡ true) rows
  kept-is_in p [] = tt
  kept-is_in p (x ∷ rows) = (
    λ e. rw e (ground (arith, ==_refl x.id)),
    All-weaken (λ r. p r ≡ true → is_in r.id (keep p rows) ≡ true)
        (λ r. p r ≡ true → is_in r.id (keep p (x ∷ rows)) ≡ true) rows
        (λ r f e. keep-is_in p r.id x rows (f e)) (kept-is_in p rows),
  )

  mark-drains :
      (locked : ℕ → Bool) (now : ℕ) (ids : List ℕ) (rows : List (Row E))
      → All (λ r. is_claimable locked r ≡ true → any (λ i. i == r.id) ids ≡ true) rows
      → All (λ r. locked r.id ≡ false → is_published r ≡ true) (mark_published now ids rows)
  unfolding mark_published
  mark-drains locked now ids [] h = tt
  mark-drains locked now ids (r ∷ rows) h = (
    elim (Bool-cases (any (λ i. i == r.id) ids)) [
      | inl marked ↦ rw marked (λ k. refl)
      | inr unmarked ↦ rw unmarked (λ k. published_already k unmarked)
    ],
    mark-drains locked now ids rows h.1,
  )
    where
      published_already :
          locked r.id ≡ false → any (λ i. i == r.id) ids ≡ false → is_published r ≡ true
      published_already k unmarked = elim (Bool-cases (is_published r)) [
        | inl done ↦ done
        | inr open_row ↦ cc (sym unmarked ∙ h.0 (rw (open_row, k) refl))
      ]

  -- Published, unless another transaction has it locked.
  abbrev pub IsDrained : (ℕ → Bool) → Row E → Type 0
  IsDrained locked r = locked r.id ≡ false → is_published r ≡ true

  -- A tick of an idle relay empties the outbox: if Kafka accepts every row, the transaction commits, and there are at most
  -- `batchSize` unpublished rows that no other transaction has locked, then every row that is not locked is
  -- published afterwards.
  pub relay_drains :
      (t : Tick E) (s : Relay E)
      → s.relaying ≡ false
      → t.commits ≡ true
      → ((r : Row E) → t.answer r ≡ accepted)
      → length (keep (is_claimable t.locked) s.rows) ≤ batch_size
      → All (IsDrained t.locked) (relay t s).rows
  unfolding relay relay_batch batch_of
  relay_drains t s free commits accepts few =
      rw
        (
          relay,
          free,
          commits,
          publish_all-accepted t.answer (claim_unpublished t.locked batch_size s.rows) accepts,
          claim-sorted t.locked batch_size s.rows few,
          mark_batch-mark t.now claimed s.rows,
        )
        (mark-drains t.locked t.now (map (λ (r : Row E). r.id) claimed) s.rows (
          All-weaken _ _ s.rows
            (λ r f e.
              any-map_id r.id claimed
              ∙ any-sort_rows (λ (l : Row E). l.id == r.id) (keep (is_claimable t.locked) s.rows)
              ∙ f e)
            (kept-is_in (is_claimable t.locked) s.rows)))
    where
      claimed : List (Row E)
      claimed = sort_rows (keep (is_claimable t.locked) s.rows)
