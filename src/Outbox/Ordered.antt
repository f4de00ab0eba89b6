-- ===== src/Outbox/Ordered.antt =====
-- The order in which the relay sends (`relayBatch` in src/order/service/order-outbox-relay.service.ts).
use marketplace_api_v.Common.{◌≡◌, none, some, List, [], ◌∷◌, ◌++◌, ◌⊎◌}
use marketplace_api_v.Outbox.Store.{Row}
use marketplace_api_v.Outbox.Relay.{Publication, accepted, failed, accepted_unheard, Batch, Relay}

module _ {E : Type 0} where
  -- How a publication can end a batch: with an error, which says whether Kafka holds the row all the same.
  abbrev pub EndsWith : Row E → Publication → Batch E → Type 0
  EndsWith r accepted b = ⊥
  EndsWith r (failed m) b = (b.failure ≡ some (r.id, m)) × (b.held ≡ b.published)
  EndsWith r (accepted_unheard m) b =
      (b.failure ≡ some (r.id, m)) × (b.held ≡ b.published ++ r ∷ [])

  -- A batch over some rows: all of them are accepted; or those before some row are, and that row's error ends it.
  abbrev pub IsPrefix : (Row E → Publication) → List (Row E) → Batch E → Type 0
  IsPrefix answer rows b =
      ((b.published ≡ rows) × (b.held ≡ rows) × (b.failure ≡ none))
      ⊎ ((r : Row E) × (rest : List (Row E)) × (rows ≡ b.published ++ r ∷ rest)
          × EndsWith r (answer r) b)
