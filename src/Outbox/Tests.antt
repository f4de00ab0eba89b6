-- ===== src/Outbox/Tests.antt =====
-- Examples of the relay (src/order/service/order-outbox-relay.service.ts), with numbers for events.
use marketplace_api_v.Common.{ℕ, refl, true, false, [], ◌∷◌, arith, ◌==◌, if◌then◌else◌, All, codes}
use marketplace_api_v.Outbox.Store.{new_row}
use marketplace_api_v.Outbox.Relay.{accepted, accepted_unheard, Tick, Relay, relay, relay_all}
use marketplace_api_v.Outbox.Sent.{IsLogged, relay_all-IsLogged}
use marketplace_api_v.Outbox.Drained.{IsDrained, relay_drains}

-- Two rows, the later one first.
abbrev start : Relay ℕ
start = record { rows = new_row 2 20 8 ∷ new_row 1 10 7 ∷ []; log = []; relaying = false }

-- Kafka takes row 1 and its answer is lost.
abbrev lost : Tick ℕ
lost = record {
  answer = λ r. if r.id == 1 then accepted_unheard (codes "timeout") else accepted;
  locked = λ i. false;
  now = 30;
  commits = true;
}

abbrev clear : Tick ℕ
clear = record { answer = λ r. accepted; locked = λ i. false; now = 40; commits = true }

relay_all-IsLogged_example :
    All
      (IsLogged (relay_all (lost ∷ clear ∷ []) start).log)
      (relay_all (lost ∷ clear ∷ []) start).rows
relay_all-IsLogged_example =
    relay_all-IsLogged (lost ∷ clear ∷ []) start (λ k. cc (k), (λ k. cc (k), tt))

relay_drains_example : All (IsDrained clear.locked) (relay clear start).rows
relay_drains_example = relay_drains clear start refl refl (λ r. refl) (omega arith)
