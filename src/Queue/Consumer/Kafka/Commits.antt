-- ===== src/Queue/Consumer/Kafka/Commits.antt =====
-- Which offsets the loop of queue/consumer/kafka.go commits, and what it returns when it stops.
use cdc_trigger.Prelude.{
  ◌≡◌, refl, ap, inl, inr, false, none, some, List, [], ◌∷◌, ◌++◌, All, str_eq, if◌then◌else◌,
  Bool-cases, Option-cases,
}
use cdc_trigger.Queue.Consumer.{
  Handler, Unmarshal, Disposition, ack_disposition, retry_disposition, Disposition-cases,
  process_message,
}
use cdc_trigger.Queue.Consumer.Kafka.{
  KafkaConfig, KafkaMessage, Fetch, fetched, fetch_failed, KafkaRun, consume_from, consume,
}

module _ (unmarshal : Unmarshal) (cfg : KafkaConfig) (handler : Handler) where
  abbrev pub IsAccepted : KafkaMessage → Type 0
  IsAccepted m = process_message unmarshal handler m.value ≡ ack_disposition

  consume_from-IsAccepted :
      (turns : List Fetch) → All IsAccepted (consume_from unmarshal cfg handler turns).commits
  unfolding consume_from
  consume_from-IsAccepted [] = tt
  consume_from-IsAccepted (fetch_failed e st ∷ rest) = tt
  consume_from-IsAccepted (fetched msg commit st ∷ rest) =
      let ih = consume_from-IsAccepted rest in
      elim (Disposition-cases (process_message unmarshal handler msg.value)) [
        | inr retry ↦ rw (retry, consume_from) ih
        | inl ack ↦ elim (Bool-cases (str_eq cfg.group "")) [
          | inl no_group ↦ rw (ack, consume_from) (rw no_group ih)
          | inr group ↦ elim (Option-cases commit) [
            | inl done ↦ rw (ack, consume_from) (rw group (rw done (ack, ih)))
            | inr (e, failed) ↦ rw (ack, consume_from) (rw group (rw failed (ack, tt)))
          ]
        ]
      ]

  -- Whatever the reader answers, only messages that the handler accepted, or that are no event,
  -- have their offset committed: never one that it rejected.
  pub commits-IsAccepted :
      (turns : List Fetch) → All IsAccepted (consume unmarshal cfg (some handler) turns).commits
  unfolding consume
  commits-IsAccepted turns = consume_from-IsAccepted turns

  -- The turns that deliver these messages and commit without an error.
  abbrev pub delivers : List KafkaMessage → List Fetch → List Fetch
  delivers [] rest = rest
  delivers (m ∷ ms) rest =
      fetched m none (record { is_closed = false; ctx_err = none }) ∷ delivers ms rest

  -- The messages among them whose offset is to be committed.
  abbrev to_commit : Disposition → KafkaMessage → List KafkaMessage → List KafkaMessage
  to_commit retry_disposition m rest = rest
  to_commit ack_disposition m rest = if str_eq cfg.group "" then rest else m ∷ rest

  abbrev pub committed : List KafkaMessage → List KafkaMessage
  committed [] = []
  committed (m ∷ ms) = to_commit (process_message unmarshal handler m.value) m (committed ms)

  -- After any run of delivered messages whose commits succeed the loop goes on. With a consumer group
  -- configured it has committed exactly the accepted ones among them, in order, and without a group
  -- none. A rejected
  -- message does not stop it, and the accepted ones behind it are committed.
  pub consume-delivers :
      (ms : List KafkaMessage) (rest : List Fetch)
      → let later = consume unmarshal cfg (some handler) rest in
        consume unmarshal cfg (some handler) (delivers ms rest)
        ≡ record { commits = committed ms ++ later.commits; ended = later.ended }
  unfolding consume consume_from
  consume-delivers [] rest = refl
  consume-delivers (m ∷ ms) rest =
      go (process_message unmarshal handler m.value) refl (consume-delivers ms rest)
    where
      go :
          (d : Disposition)
          → process_message unmarshal handler m.value ≡ d
          → consume unmarshal cfg (some handler) (delivers ms rest) ≡ record {
            commits = committed ms ++ (consume unmarshal cfg (some handler) rest).commits;
            ended = (consume unmarshal cfg (some handler) rest).ended;
          }
          → consume unmarshal cfg (some handler) (delivers (m ∷ ms) rest) ≡ record {
            commits =
                to_commit d m (committed ms) ++ (consume unmarshal cfg (some handler) rest).commits;
            ended = (consume unmarshal cfg (some handler) rest).ended;
          }
      go retry_disposition d ih = rw (d, consume_from) ih
      go ack_disposition d ih = elim (Bool-cases (str_eq cfg.group "")) [
        | inl no_group ↦ rw (d, consume_from) (rw no_group ih)
        | inr group ↦
            rw (d, consume_from)
              (rw group
                (ap (λ (r : KafkaRun). record { commits = m ∷ r.commits; ended = r.ended }) ih))
      ]
