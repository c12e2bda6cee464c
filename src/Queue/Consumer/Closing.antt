-- ===== src/Queue/Consumer/Closing.antt =====
-- `Close` of the consumers in queue/consumer, called by anyone and as often as they like.
use cdc_trigger.Prelude.{
  ℕ, zero, suc, ◌+◌, ◌≡◌, refl, ap, Bool, true, false, Option, none, List, [], ◌∷◌, ◌++◌, arith,
}
use cdc_trigger.Errors.{GoError}
use cdc_trigger.Queue.Amqp.{AmqpCall, close_both}
use cdc_trigger.Queue.Consumer.Kafka
use cdc_trigger.Queue.Consumer.Redis
use cdc_trigger.Queue.Consumer.RabbitMq
use cdc_trigger.Queue.Consumer.RocketMq

-- A `Close` for each report of the list: what the calls return, and how often they close the client.
abbrev pub close_all :
    (Option GoError → Bool → Bool × Option GoError × ℕ)
    → List (Option GoError)
    → Bool
    → List (Option GoError) × ℕ
close_all close [] closed = ([], 0)
close_all close (reported ∷ reports) closed =
    let (after, result, times) = close reported closed in
    let (results, more) = close_all close reports after in (result ∷ results, times + more)

-- `n` calls of `Close`: how often they close `done`.
abbrev pub close_done : (Bool → Bool × ℕ) → ℕ → Bool → ℕ
close_done close zero closed = 0
close_done close (suc n) closed =
    let (after, times) = close closed in times + close_done close n after

-- `n` calls of `close` of a subscription.
abbrev pub close_subscriptions : ℕ → Bool → List AmqpCall
close_subscriptions zero used = []
close_subscriptions (suc n) used =
    let (after, calls) = RabbitMq.close_subscription used in calls ++ close_subscriptions n after

abbrev pub nothing : List (Option GoError) → List (Option GoError)
nothing [] = []
nothing (r ∷ rs) = none ∷ nothing rs

kafka_closed :
    (reports : List (Option GoError)) → close_all Kafka.close reports true ≡ (nothing reports, 0)
unfolding Kafka.close
kafka_closed [] = refl
kafka_closed (r ∷ rs) =
    ap (λ (x : List (Option GoError) × ℕ). (none ∷ x.0, 0 + x.1)) (kafka_closed rs)

redis_closed :
    (reports : List (Option GoError)) → close_all Redis.close reports true ≡ (nothing reports, 0)
unfolding Redis.close
redis_closed [] = refl
redis_closed (r ∷ rs) =
    ap (λ (x : List (Option GoError) × ℕ). (none ∷ x.0, 0 + x.1)) (redis_closed rs)

rabbit_closed : (n : ℕ) → close_done RabbitMq.close n true ≡ 0
unfolding RabbitMq.close
rabbit_closed zero = refl
rabbit_closed (suc n) = omega (arith, rabbit_closed n)

rocket_closed : (n : ℕ) → close_done RocketMq.close n true ≡ 0
unfolding RocketMq.close
rocket_closed zero = refl
rocket_closed (suc n) = omega (arith, rocket_closed n)

subscription_closed : (n : ℕ) → close_subscriptions n true ≡ []
unfolding RabbitMq.close_subscription
subscription_closed zero = refl
subscription_closed (suc n) = subscription_closed n

-- However often `Close` is called on a consumer, once at least: the Kafka reader and the Redis client
-- are closed once, the first call returns what that reported and the others nil; the RabbitMQ and
-- the RocketMQ consumer close their channel `done` once, a second time being a panic; and a RabbitMQ
-- subscription that is closed closes its channel and then its connection once.
pub closes_once :
    (first : Option GoError) (reports : List (Option GoError)) (n : ℕ)
    → (close_all Kafka.close (first ∷ reports) false ≡ (first ∷ nothing reports, 1))
      × (close_all Redis.close (first ∷ reports) false ≡ (first ∷ nothing reports, 1))
      × (close_done RabbitMq.close (suc n) false ≡ 1)
      × (close_done RocketMq.close (suc n) false ≡ 1)
      × (close_subscriptions (suc n) false ≡ close_both)
unfolding Kafka.close Redis.close RabbitMq.close RocketMq.close RabbitMq.close_subscription
closes_once first reports n = (
  ap (λ (x : List (Option GoError) × ℕ). (first ∷ x.0, 1 + x.1)) (kafka_closed reports),
  ap (λ (x : List (Option GoError) × ℕ). (first ∷ x.0, 1 + x.1)) (redis_closed reports),
  omega (arith, rabbit_closed n),
  omega (arith, rocket_closed n),
  ap (λ (calls : List AmqpCall). close_both ++ calls) (subscription_closed n),
)
