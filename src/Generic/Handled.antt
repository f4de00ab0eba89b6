-- ===== src/Generic/Handled.antt =====
-- No message is lost (src/generic/kafka/kafka-consumer.service.ts).
use marketplace_api_v.Common.{◌≡◌, Option, some, List, [], ◌∷◌, ◌++◌, Text, ◌⊎◌}
use marketplace_api_v.Generic.Consumer.{Delivered, Handling, returned, DeadLetter, Consumer, letter}

module _ {S W E : Type 0} (parse : Text → Option E) (handle : W → E → S → Handling × S)
    (m : Delivered) where
  -- The handler has returned for the message, and the state is what it left.
  pub record IsHandled (after : Consumer S) : Type 0 where
    pub event : E
    pub parsed : parse m.value ≡ some event
    pub world : W
    pub before : S
    pub done : handle world event before ≡ (returned, after.state)

  -- The message is the last dead letter.
  pub record IsDead (after : Consumer S) : Type 0 where
    pub reason : Text
    pub earlier : List DeadLetter
    pub sent : earlier ++ letter m reason ∷ [] ≡ after.dead

  abbrev pub IsDone : Consumer S → Type 0
  IsDone after = IsHandled after ⊎ IsDead after
