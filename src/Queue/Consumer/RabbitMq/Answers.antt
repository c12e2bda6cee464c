-- ===== src/Queue/Consumer/RabbitMq/Answers.antt =====
-- The answers that queue/consumer/rabbit.go gives, also across a broker that closes subscriptions.
use mathlib.Core.List.{append_assoc}
use cdc_trigger.Prelude.{
  ℕ, ◌≡◌, refl, sym, ap, ◌∙◌, false, not, none, some, List, [], ◌∷◌, ◌++◌, map,
}
use cdc_trigger.Errors.{GoError, sentinel, deliveries_closed, any_in}
use cdc_trigger.Queue.Consumer.{
  Handler, Unmarshal, Disposition, ack_disposition, retry_disposition, process_message, Stopping,
}
use cdc_trigger.Queue.Consumer.RabbitMq.{
  RabbitMqConfig, Delivery, Answer, ack, nack, Consumed, Session, RabbitRun, consume_deliveries,
  after_subscription, consume_sessions, consume,
}

module _ (unmarshal : Unmarshal) (config : RabbitMqConfig) (handler : Handler) where
  abbrev answer_as : Disposition → List ℕ → Answer
  answer_as ack_disposition body = ack body
  answer_as retry_disposition body = nack body (not config.drop_on_error)

  -- The answer that a message is due: accepted, or left to the broker for another attempt.
  abbrev pub due : List ℕ → Answer
  due body = answer_as (process_message unmarshal handler body) body

  -- The deliveries of these messages, whose answers all arrive.
  abbrev pub delivered : List (List ℕ) → List Delivery
  delivered bodies = map (λ b. record { body = b; ack_err = none; nack_err = none }) bodies

  pub consume_deliveries-delivered :
      (bodies : List (List ℕ)) (e : GoError)
      → consume_deliveries unmarshal config handler (delivered bodies) e
        ≡ record { answers = map due bodies; failure = e }
  unfolding consume_deliveries
  consume_deliveries-delivered [] e = refl
  consume_deliveries-delivered (b ∷ bs) e =
      go (process_message unmarshal handler b) refl (consume_deliveries-delivered bs e)
    where
      go :
          (d : Disposition)
          → process_message unmarshal handler b ≡ d
          → consume_deliveries unmarshal config handler (delivered bs) e
            ≡ record { answers = map due bs; failure = e }
          → consume_deliveries unmarshal config handler (delivered (b ∷ bs)) e
            ≡ record { answers = answer_as d b ∷ map due bs; failure = e }
      go ack_disposition h ih =
          rw (h, consume_deliveries)
            (ap (λ (c : Consumed). record { answers = ack b ∷ c.answers; failure = c.failure }) ih)
      go retry_disposition h ih =
          rw (h, consume_deliveries)
            (ap
              (λ (c : Consumed). record {
                answers = nack b (not config.drop_on_error) ∷ c.answers;
                failure = c.failure;
              })
              ih)

  abbrev running : Stopping
  running = record { is_closed = false; ctx_err = none }

  -- Subscriptions that deliver these messages each, and that the broker then closes.
  abbrev pub broken_off : List (List (List ℕ)) → List Session → List Session
  broken_off [] rest = rest
  broken_off (bodies ∷ more) rest =
      record {
        at_top = running;
        dialled = (
          none,
          record { deliveries = delivered bodies; ends_with = sentinel deliveries_closed },
        );
        at_end = running;
      }
      ∷ broken_off more rest

  abbrev pub all_due : List (List (List ℕ)) → List Answer
  all_due [] = []
  all_due (bodies ∷ more) = map due bodies ++ all_due more

  -- While neither `Close` nor the context stops it and every answer arrives, the consumer dials
  -- again however often the broker closes the subscription, and every delivery of every
  -- subscription gets exactly the one answer it is due, in the order of arrival.
  pub consume-broken_off :
      (runs : List (List (List ℕ))) (rest : List Session)
      → consume unmarshal config (some handler) (broken_off runs rest) ≡ record {
        answers = all_due runs ++ (consume unmarshal config (some handler) rest).answers;
        ended = (consume unmarshal config (some handler) rest).ended;
      }
  unfolding consume consume_sessions after_subscription any_in
  consume-broken_off [] rest = refl
  consume-broken_off (bodies ∷ more) rest =
      let later = consume unmarshal config (some handler) rest in
      rw (consume_deliveries-delivered bodies (sentinel deliveries_closed), any_in)
        (ap
            (λ (c : Consumed). record {
              answers =
                  c.answers
                  ++ (consume_sessions unmarshal config handler (broken_off more rest)).answers;
              ended = (consume_sessions unmarshal config handler (broken_off more rest)).ended;
            })
            (consume_deliveries-delivered bodies (sentinel deliveries_closed))
          ∙ ap
              (λ (r : RabbitRun). record { answers = map due bodies ++ r.answers; ended = r.ended })
              (consume-broken_off more rest)
          ∙ ap (λ (l : List Answer). record { answers = l; ended = later.ended })
              (sym (append_assoc (map due bodies) (all_due more) later.answers)))
