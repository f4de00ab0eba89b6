-- ===== src/Generic/Consumer.antt =====
-- src/generic/kafka/kafka-consumer.service.ts: one message at a time of a partition, until it is done with.
use marketplace_api_v.Common.{
  ℕ, Bool, true, false, Option, none, some, List, [], ◌∷◌, ◌++◌, Text, codes,
}
use marketplace_api_v.Outbox.Relay.{Publication, accepted, failed, accepted_unheard}

-- A message as it lies in a partition.
pub record Delivered : Type 0 where
  pub offset : ℕ
  pub value : Text

-- How a handler ends: it returns, it throws `KafkaRejectedMessageException` with its reason, or it throws another error.
pub data Handling : Type 0 where
  returned broken : Handling
  rejected_for : Text → Handling

-- What is sent to the dead-letter topic: the value, `dlt_reason` and the offset of `dlt_source`.
pub record DeadLetter : Type 0 where
  pub value : Text
  pub reason : Text
  pub source : ℕ

-- What the handler writes to, and the dead-letter topic of the group.
pub record Consumer (S : Type 0) : Type 0 where
  pub state : S
  pub dead : List DeadLetter

-- Whether `eachMessage` returns, so that the offset moves on, or throws, so that the message comes again.
pub data Verdict : Type 0 where
  finished retried : Verdict

-- What an attempt finds: the answer of Kafka to a dead letter, and what the handler depends on.
pub record Attempt (W : Type 0) : Type 0 where
  pub answer : Publication
  pub world : W

abbrev pub letter : Delivered → Text → DeadLetter
letter m reason = record { value = m.value; reason = reason; source = m.offset }

module _ {S : Type 0} where
  -- `producer.send(deadLetterTopic, …)`
  abbrev pub send_letter : Publication → DeadLetter → Consumer S → Verdict × Consumer S
  send_letter accepted l c = (finished, record c { dead = c.dead ++ l ∷ [] })
  send_letter (failed e) l c = (retried, c)
  send_letter (accepted_unheard e) l c = (retried, record c { dead = c.dead ++ l ∷ [] })

  -- The rejection of a message; a broadcast consumer has no dead-letter topic.
  abbrev pub reject : Bool → Publication → Delivered → Text → Consumer S → Verdict × Consumer S
  reject true answer m reason c = (finished, c)
  reject false answer m reason c = send_letter answer (letter m reason) c

  abbrev pub after_handling :
      Bool → Publication → Delivered → Consumer S → Handling × S → Verdict × Consumer S
  after_handling broadcast answer m c (returned, s) = (finished, record c { state = s })
  after_handling broadcast answer m c (broken, s) = (retried, record c { state = s })
  after_handling broadcast answer m c (rejected_for reason, s) =
      reject broadcast answer m reason (record c { state = s })

  -- What follows an attempt: a message that is done with is not delivered again.
  abbrev pub deliver_next :
      (Consumer S → Verdict × Consumer S) → Verdict × Consumer S → Verdict × Consumer S
  deliver_next again (finished, c) = (finished, c)
  deliver_next again (retried, c) = again c

module _ {S W E : Type 0} where
  module _ (broadcast : Bool) (parse : Text → Option E) (handle : W → E → S → Handling × S) where
    abbrev pub after_parse : Attempt W → Delivered → Consumer S → Option E → Verdict × Consumer S
    after_parse t m c none = reject broadcast t.answer m (codes "SyntaxError") c
    after_parse t m c (some e) = after_handling broadcast t.answer m c (handle t.world e c.state)

    -- `eachMessage`
    unfoldable pub each_message : Attempt W → Delivered → Consumer S → Verdict × Consumer S
    each_message t m c = after_parse t m c (parse m.value)

    -- A message is delivered again until it is done with: the attempts at it, of any number.
    unfoldable pub deliver : List (Attempt W) → Delivered → Consumer S → Verdict × Consumer S
    deliver [] m c = (retried, c)
    deliver (t ∷ ts) m c = deliver_next (deliver ts m) (each_message t m c)
