-- ===== src/Outbox/Store.antt =====
-- The rows of an outbox and the queries on them (src/order/repository/order-outbox.repository.ts). Times are
-- numbers; an error message is a text.
use marketplace_api_v.Common.{
  ℕ, ◌+◌, Bool, true, false, ◌&&◌, ◌||◌, Option, none, some, List, [], ◌∷◌, ◌++◌, ltb, leb, ◌==◌,
  not, if◌then◌else◌, any, keep, take, length, Text,
}

pub record Row (E : Type 0) : Type 0 where
  pub id : ℕ
  pub event : E
  pub attempts : ℕ
  pub last_error : Option Text
  pub published_at : Option ℕ
  pub created_at : ℕ

module _ {E : Type 0} where
  -- The entity's column defaults.
  abbrev pub new_row : ℕ → ℕ → E → Row E
  new_row id now event = record {
    id = id;
    event = event;
    attempts = 0;
    last_error = none;
    published_at = none;
    created_at = now;
  }

  -- `create`
  abbrev pub create : Row E → List (Row E) → List (Row E)
  create row rows = rows ++ row ∷ []

  abbrev pub is_published : Row E → Bool
  is_published r = elim r.published_at [ none ↦ false | some t ↦ true ]

  -- `ORDER BY createdAt ASC, id ASC`
  abbrev pub comes_before : Row E → Row E → Bool
  comes_before r s =
      ltb r.created_at s.created_at || ((r.created_at == s.created_at) && leb r.id s.id)

  unfoldable pub insert_row : Row E → List (Row E) → List (Row E)
  insert_row r [] = r ∷ []
  insert_row r (s ∷ rows) = if comes_before r s then r ∷ s ∷ rows else s ∷ insert_row r rows

  unfoldable pub sort_rows : List (Row E) → List (Row E)
  unfolding insert_row
  sort_rows [] = []
  sort_rows (r ∷ rows) = insert_row r (sort_rows rows)

  -- `claimUnpublished(limit)`; `locked` is what another transaction holds, which `SKIP LOCKED` passes over.
  unfoldable pub claim_unpublished : (ℕ → Bool) → ℕ → List (Row E) → List (Row E)
  unfolding sort_rows
  claim_unpublished locked limit rows =
      take limit (sort_rows (keep (λ r. not (is_published r) && not (locked r.id)) rows))

  -- `markPublished(ids)`
  unfoldable pub mark_published : ℕ → List ℕ → List (Row E) → List (Row E)
  mark_published now ids [] = []
  mark_published now ids (r ∷ rows) =
      (if any (λ i. i == r.id) ids then record r { published_at = some now } else r)
      ∷ mark_published now ids rows

  -- `recordFailure(id, lastError)`
  unfoldable pub record_failure : ℕ → Text → List (Row E) → List (Row E)
  record_failure id error [] = []
  record_failure id error (r ∷ rows) =
      (if r.id == id then record r { attempts = r.attempts + 1; last_error = some error } else r)
      ∷ record_failure id error rows

  -- `deletePublishedBefore(before)`: the rows that stay, and how many went.
  abbrev is_expired : ℕ → Row E → Bool
  is_expired before r = elim r.published_at [ none ↦ false | some t ↦ ltb t before ]

  unfoldable pub delete_published_before : ℕ → List (Row E) → List (Row E) × ℕ
  delete_published_before before rows =
      (keep (λ r. not (is_expired before r)) rows, length (keep (is_expired before) rows))
