-- ===== src/Queue/Consumer/Kafka.antt =====
-- queue/consumer/kafka.go: the loop that reads messages and commits the offsets of those accepted.
pub mod Commits
use cdc_trigger.Prelude.{
  ℕ, String, ◌≡◌, ◌≢◌, refl, ap, ◌∙◌, ◌⊎◌, inl, inr, Bool, true, false, Option, none, some, List,
  [], ◌∷◌, ◌++◌, map, All, arith, str_eq, if◌then◌else◌, Bool-cases,
}
use cdc_trigger.Errors.{
  GoError, sentinel, eof, any_in, errorf, wrapf, str, int64, pos, Result, ok, err, Sentinel,
}
use cdc_trigger.Queue.Consumer.{
  Handler, Unmarshal, Disposition, ack_disposition, retry_disposition, process_message,
  err_nil_handler, Stopping, Ended, reading, returned,
}

pub record KafkaConfig : Type 0 where
  pub brokers : List String
  pub topic : String
  pub group : String
  pub start_offset : String

pub data StartOffset : Type 0 where
  first_offset last_offset : StartOffset

-- `fold` is `strings.ToLower(strings.TrimSpace(name))`.
unfoldable pub kafka_start_offset : (String → String) → String → Result StartOffset
kafka_start_offset fold name =
    let n = fold name in
    if str_eq n ""
    then ok first_offset
    else if str_eq n "first"
    then ok first_offset
    else if str_eq n "earliest"
    then ok first_offset
    else if str_eq n "oldest"
    then ok first_offset
    else if str_eq n "last"
    then ok last_offset
    else if str_eq n "latest"
    then ok last_offset
    else if str_eq n "newest"
    then ok last_offset
    else err (errorf "unsupported start_offset %q: use first or last" (str name ∷ []))

-- The checks of `NewKafkaConsumer`: where the reader is to start.
unfoldable pub new_kafka_consumer : (String → String) → KafkaConfig → Result StartOffset
unfolding kafka_start_offset
new_kafka_consumer fold cfg = elim cfg.brokers [
  | [] ↦ err (errorf "the Kafka consumer needs at least one entry in brokers" [])
  | b ∷ bs ↦ kafka_start_offset fold cfg.start_offset
]

pub record KafkaMessage : Type 0 where
  pub topic : String
  pub partition : ℕ
  pub offset : ℕ
  pub value : List ℕ

-- What the reader answers to one turn of the loop: a message, with what a commit of it reports,
-- or an error; and what `isClosed` and the context say when an error is looked at.
pub data Fetch : Type 0 where
  fetched : KafkaMessage → Option GoError → Stopping → Fetch
  fetch_failed : GoError → Stopping → Fetch

-- The messages whose commit was asked for, in order, and how the loop stands.
pub record KafkaRun : Type 0 where
  pub commits : List KafkaMessage
  pub ended : Ended

abbrev is_eof : GoError → Bool
is_eof (sentinel eof) = true
is_eof e = false

unfoldable pub after_fetch_error : GoError → Stopping → Option GoError
after_fetch_error e st = if st.is_closed then none else (elim st.ctx_err [
  | some c ↦ some c
  | none ↦ if any_in is_eof e then none else some (wrapf "failed to read from Kafka: %w" [] e)
])

unfoldable pub after_commit_error : KafkaMessage → GoError → Stopping → Option GoError
after_commit_error msg e st = if st.is_closed then none else (elim st.ctx_err [
  | some c ↦ some c
  | none ↦ some (
      wrapf "failed to commit the offset %d of %s/%d: %w"
        (int64 (pos msg.offset) ∷ str msg.topic ∷ int64 (pos msg.partition) ∷ []) e)
])

module _ (unmarshal : Unmarshal) (cfg : KafkaConfig) where
  -- The loop of `Consume`, over the answers of its turns.
  unfoldable pub consume_from : Handler → List Fetch → KafkaRun
  unfolding after_fetch_error after_commit_error
  consume_from handler [] = record { commits = []; ended = reading }
  consume_from handler (fetch_failed e st ∷ rest) = record {
    commits = [];
    ended = returned (after_fetch_error e st);
  }
  consume_from handler (fetched msg commit st ∷ rest) =
      let more = consume_from handler rest in
      elim (process_message unmarshal handler msg.value) [
        | retry_disposition ↦ more
        | ack_disposition ↦ if str_eq cfg.group "" then more else (elim commit [
          | none ↦ record { commits = msg ∷ more.commits; ended = more.ended }
          | some e ↦ record { commits = msg ∷ []; ended = returned (after_commit_error msg e st) }
        ])
      ]

  unfoldable pub consume : Option Handler → List Fetch → KafkaRun
  consume none turns = record { commits = []; ended = returned (some err_nil_handler) }
  consume (some handler) turns = consume_from handler turns

-- `Close`, over the flag that `mu` guards and what the reader's own `Close` reports: the flag it
-- leaves, what it returns, and how often it closes the reader.
unfoldable pub close : Option GoError → Bool → Bool × Option GoError × ℕ
close reported closed = if closed then (true, none, 0) else (true, reported, 1)
