-- ===== src/Outbox/Claimed.antt =====
-- What a claim finds (`claimUnpublished` in src/order/repository/order-outbox.repository.ts).
use marketplace_api_v.Common.{
  ℕ, zero, suc, ◌≤◌, ◌≡◌, refl, Bool, true, false, not, ◌&&◌, ◌||◌, List, [], ◌∷◌, arith, any, keep,
  take, length, Bool-cases, inl, inr,
}
use marketplace_api_v.Outbox.Store.{
  Row, comes_before, insert_row, sort_rows, is_published, claim_unpublished,
}

module _ {E : Type 0} where
  any-insert_row :
      (p : Row E → Bool) (r : Row E) (rows : List (Row E))
      → any p (insert_row r rows) ≡ (p r || any p rows)
  unfolding insert_row
  any-insert_row p r [] = refl
  any-insert_row p r (s ∷ rows) = elim (Bool-cases (comes_before r s)) [
    | inl before ↦ rw (insert_row, before) refl
    | inr after ↦ rw (insert_row, after, any-insert_row p r rows) (ground arith)
  ]

  pub any-sort_rows : (p : Row E → Bool) (rows : List (Row E)) → any p (sort_rows rows) ≡ any p rows
  unfolding sort_rows
  any-sort_rows p [] = refl
  any-sort_rows p (r ∷ rows) = rw (any-insert_row p r (sort_rows rows), any-sort_rows p rows) refl

  length-insert_row :
      (r : Row E) (rows : List (Row E)) → length (insert_row r rows) ≡ suc (length rows)
  unfolding insert_row
  length-insert_row r [] = refl
  length-insert_row r (s ∷ rows) = elim (Bool-cases (comes_before r s)) [
    | inl before ↦ rw (insert_row, before) refl
    | inr after ↦ rw (insert_row, after, length-insert_row r rows) refl
  ]

  pub length-sort_rows : (rows : List (Row E)) → length (sort_rows rows) ≡ length rows
  unfolding sort_rows
  length-sort_rows [] = refl
  length-sort_rows (r ∷ rows) =
      rw (length-insert_row r (sort_rows rows), length-sort_rows rows) refl

  pub take-all : (n : ℕ) (rows : List (Row E)) → length rows ≤ n → take n rows ≡ rows
  take-all zero [] h = refl
  take-all (suc n) [] h = refl
  take-all zero (r ∷ rows) h = absurd (omega arith)
  take-all (suc n) (r ∷ rows) h = rw (take-all n rows (omega arith)) refl

  -- In the order of `createdAt`, then `id`.
  abbrev pub IsSorted : List (Row E) → Type 0
  IsSorted [] = Unit
  IsSorted (r ∷ []) = Unit
  IsSorted (r ∷ s ∷ rows) = (comes_before r s ≡ true) × IsSorted (s ∷ rows)

  comes_before_total : (r s : Row E) → comes_before r s ≡ false → comes_before s r ≡ true
  comes_before_total r s h = ground arith

  insert_row-IsSorted :
      (r : Row E) (rows : List (Row E)) → IsSorted rows → IsSorted (insert_row r rows)
  unfolding insert_row
  insert_row-IsSorted r [] h = tt
  insert_row-IsSorted r (s ∷ []) h = elim (Bool-cases (comes_before r s)) [
    | inl before ↦ rw (insert_row, before) (before, tt)
    | inr after ↦ rw (insert_row, after) (comes_before_total r s after, tt)
  ]
  insert_row-IsSorted r (s ∷ t ∷ rows) h = elim (Bool-cases (comes_before r s)) [
    | inl before ↦ rw (insert_row, before) (before, h)
    | inr after ↦ elim (Bool-cases (comes_before r t)) [
      | inl before ↦ rw (insert_row, after, before) (comes_before_total r s after, (before, h.1))
      | inr later ↦
          rw (insert_row, after, later)
            (h.0, (rw (insert_row, later) at (insert_row-IsSorted r (t ∷ rows) h.1)))
    ]
  ]

  pub sort_rows-IsSorted : (rows : List (Row E)) → IsSorted (sort_rows rows)
  unfolding sort_rows
  sort_rows-IsSorted [] = tt
  sort_rows-IsSorted (r ∷ rows) = insert_row-IsSorted r (sort_rows rows) (sort_rows-IsSorted rows)

  take-IsSorted : (n : ℕ) (rows : List (Row E)) → IsSorted rows → IsSorted (take n rows)
  take-IsSorted zero rows h = tt
  take-IsSorted (suc n) [] h = tt
  take-IsSorted (suc zero) (r ∷ rows) h = tt
  take-IsSorted (suc (suc n)) (r ∷ []) h = tt
  take-IsSorted (suc (suc n)) (r ∷ s ∷ rows) h = (h.0, take-IsSorted (suc n) (s ∷ rows) h.1)

  pub claim-IsSorted :
      (locked : ℕ → Bool) (limit : ℕ) (rows : List (Row E))
      → IsSorted (claim_unpublished locked limit rows)
  unfolding claim_unpublished
  claim-IsSorted locked limit rows =
      take-IsSorted limit _
        (sort_rows-IsSorted (keep (λ r. not (is_published r) && not (locked r.id)) rows))
