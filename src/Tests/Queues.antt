-- ===== src/Tests/Queues.antt =====
-- The retries of queue/producer and the loops of queue/consumer, run on short scripts.
use Prim.Native.Nat.{min}
use cdc_trigger.Prelude.{
  ℕ, zero, suc, ◌≡◌, ◌+◌, ◌*◌, ◌^◌, ◌++◌, false, none, some, List, [], ◌∷◌, arith,
}
use cdc_trigger.Errors.{ok, err, external, pos}
use cdc_trigger.Queue.Producer.{Attempts, backoff, send_with_retry, two_seconds}
use cdc_trigger.Queue.Producer.Backoff.{backoff-eq-min}
use cdc_trigger.Queue.Producer.Retry.{Account, send_with_retry-Account}
use cdc_trigger.Queue.Consumer.{Handler, Unmarshal}
use cdc_trigger.Queue.Consumer.Kafka.{KafkaConfig, KafkaMessage, fetch_failed, Fetch}
use cdc_trigger.Queue.Consumer.Kafka
use cdc_trigger.Queue.Consumer.Kafka.Commits.{delivers, committed, consume-delivers}
use cdc_trigger.Queue.Consumer.RabbitMq.{RabbitMqConfig}
use cdc_trigger.Queue.Consumer.RabbitMq
use cdc_trigger.Queue.Consumer.RabbitMq.Answers.{broken_off, all_due, consume-broken_off}
use cdc_trigger.Tests.Samples.{user_changed, topology}

-- The first attempt fails, the second is delivered.
abbrev second_time : Attempts
second_time = record {
  send = λ i. elim i [ zero ↦ some (external 3) | suc n ↦ none ];
  interrupted = λ _. none;
}

send_with_retry-Account_example :
    Account (backoff 0) second_time 3 0 (send_with_retry 0 second_time (pos 3))
send_with_retry-Account_example = send_with_retry-Account 0 second_time 3

backoff-eq-min_example : backoff 0 2 ≡ min (2 ^ (2 + 1) * 100_000_000) two_seconds
backoff-eq-min_example = backoff-eq-min 0 2 (omega arith)

-- A message whose first byte is 1 is the sample change, any other is no event; the handler rejects
-- nothing but that change.
abbrev unmarshal : Unmarshal
unmarshal payload = elim payload [
  | [] ↦ err (external 1)
  | b ∷ bs ↦ elim b [ zero ↦ err (external 1) | suc n ↦ ok user_changed ]
]

abbrev rejecting : Handler
rejecting event = some (external 2)

abbrev kafka : KafkaConfig
kafka = record { brokers = "b:9092" ∷ []; topic = "cdc"; group = "workers"; start_offset = "" }

abbrev first : KafkaMessage
first = record { topic = "cdc"; partition = 0; offset = 0; value = 1 ∷ [] }

abbrev second : KafkaMessage
second = record { topic = "cdc"; partition = 0; offset = 1; value = 0 ∷ [] }

-- The rejected message of offset 0 is passed by the commit of offset 1.
consume-delivers_example :
    Kafka.consume unmarshal kafka
      (some rejecting)
      (delivers unmarshal kafka rejecting (first ∷ second ∷ []) [])
    ≡ record {
      commits =
          committed unmarshal kafka rejecting (first ∷ second ∷ [])
          ++ (Kafka.consume unmarshal kafka (some rejecting) []).commits;
      ended = (Kafka.consume unmarshal kafka (some rejecting) []).ended;
    }
consume-delivers_example = consume-delivers unmarshal kafka rejecting (first ∷ second ∷ []) []

abbrev rabbit : RabbitMqConfig
rabbit = record { topology = topology; prefetch = 1; drop_on_error = false; consumer_tag = "" }

abbrev two_runs : List (List (List ℕ))
two_runs = ((1 ∷ []) ∷ []) ∷ ((0 ∷ []) ∷ (1 ∷ []) ∷ []) ∷ []

consume-broken_off_example :
    RabbitMq.consume unmarshal rabbit
      (some rejecting)
      (broken_off unmarshal rabbit rejecting two_runs [])
    ≡ record {
      answers =
          all_due unmarshal rabbit rejecting two_runs
          ++ (RabbitMq.consume unmarshal rabbit (some rejecting) []).answers;
      ended = (RabbitMq.consume unmarshal rabbit (some rejecting) []).ended;
    }
consume-broken_off_example = consume-broken_off unmarshal rabbit rejecting two_runs []
