-- ===== src/Lib.antt =====
-- cdc-trigger: the program reads the binlog of a MySQL server, publishes each changed row to a message
-- queue (`listen`), and on the other side consumes the queue and runs the tasks that watch the changed
-- table (`run`, `run-by-pk`, `run-by-range`).
--
-- How the parts interact. The source (source/mysql.go) turns binlog rows into change events, sends them
-- to a channel, and saves its position in a store (store/). `Listen` (cmd/clisten.go) moves the events
-- from the channel to a producer (queue/producer) with retries. On the other side a consumer
-- (queue/consumer) decodes each message and gives it to the runner (task/runner.go), which finds the
-- tasks watching the table in an index (task/watchers.go) and runs them side by side.
--
-- Which file models what:
--   Prelude, Errors, Types   shared names; Go errors and values of type `any`; types/event.go
--   Task                     task/task.go, task/log_task.go
--   Task/Watchers            task/watchers.go: `index_tasks` (indexTasks), `of`, `named`, `run_each`
--                            (runEach). The inner loop of indexTasks is `index_subs`, its body
--                            `index_task`. Keys, Routing, Index and FanOut hold the proofs.
--   Task/Runner              task/runner.go: `handle`, `run_by_primary_key`, `run_by_time_range`, `run`
--   Queue/Producer           queue/producer/producer.go: `send_with_retry` (SendWithRetry), `backoff`
--   Queue/Producer/RabbitClient, RabbitDispatch, RabbitDial, RabbitProducer
--                            queue/producer/rabbit.go: the locked sections of `rabbitClient` with the
--                            steps that call them, its dispatcher over the channels of the AMQP
--                            library, `dial`, and `send` (Send) with the answers of its calls
--   Queue/Producer/PulsarProducer, RocketMqProducer, KafkaProducer, RedisProducer, StdoutProducer
--                            queue/producer/pulsar.go, rocket.go, kafka.go, redis.go, stdout.go
--   Queue/Producer/Encoding  events that cannot be marshalled, over all producers and the retries
--   Queue/Consumer           queue/consumer/consumer.go, and below it kafka.go, redis.go, rabbit.go,
--                            pulsar.go and rocket.go: a consumer loop is a function on the script of
--                            what its client answers at each turn; Closing has their `Close`
--   Queue/Ledger             what is opened and closed in the client libraries, replayed as a stack
--   Queue/Amqp, RabbitTopology
--                            the AMQP calls of the two `dial` functions of rabbit.go, compared
--   Queue/RedisQueue         the Redis list from the producer, with its retries, to the consumer
--   Store                    store/store.go (IStore and its law), store/file.go (FileStore/Locks has its
--                            calls from many goroutines under the per-key locks), store/redis.go
--   Source                   source/mysql.go: Rows (OnRow, rowToMap), Position (loadPosition,
--                            savePosition), Restarts (OnPosSynced, and sessions of the canal one after
--                            another), Lifecycle (NewSource, Run, stop, Close)
--   Cmd                      cmd/setup.go, cmd/clisten.go (Listen as a step relation on `Pipeline`),
--                            cmd/taskrun.go (TaskRun/Actions has the actions of its commands)
--   Cmd/CommandLine          cmd/flags.go, cmd/before.go, the commands of cmd/clisten.go and cmd/taskrun.go,
--                            cmd/cdc-trigger/main.go and cmd/cdc-trigger-task/main.go, with the exit codes
--   Config                   config/config.go
--   Delivery                 the path of an event from the channel of `Listen` over a Redis list to the
--                            tasks: the loop of the consumer goroutine with the producer's retries, the
--                            list, the consumer, and the runner
--   Tests                    the theorems at concrete inputs
--
-- State. A Go map is an association list. What a lock guards is a record, and each locked section one
-- function on it. Goroutines are either a schedule given as an argument (`run_each`, which writes its
-- slots in any order) or steps of a relation (`Listen`, several `Run` calls, the source, the calls of the file
-- store). An error keeps its format, its arguments and what it wraps, so `errors.Is` and `errors.As` are a walk over it.
--
-- Bounds. Loops recurse on the list they read, or, for the retries, on the number of indices up to
-- maxRetries, which is exactly how often the loop can turn; no fuel is chosen. Durations are 64-bit
-- words, with the wrap-around written out, and so are the numbers of the RabbitMQ publishes, whose steps
-- ask for less than 2^64 of them. The channel of events holds 10240.
--
-- Parameters. The clients of Kafka, Redis, RabbitMQ, Pulsar and RocketMQ, the operating system, the
-- canal library, encoding/json, strconv.ParseFloat, time.Parse, strings.ToLower and crypto/md5 are
-- arguments: what they answer is data of the functions, and what is relied on is a record of laws
-- (`RedisLaws`, `CodecLaws`, `TempFits`, `ListServer`). go-redis may
-- send a command again when a reply is lost: one LPUSH call may push several copies, and one BRPOP call
-- may lose payloads (`Network` and the turns in Queue/RedisQueue). Of crypto/md5 the locks need that the
-- sums of the keys in use differ. The AMQP library hands over returns and confirmations in the order in
-- which it reads them, and the broker returns a message only before it confirms it: both are premises
-- of the steps in RabbitDispatch. The canal hands over the entries of the
-- binlog in order and reports the position behind those it has handed over: the steps in Restarts.
--
-- Not modelled: log lines; the reading of the configuration files and the parsing of the command line,
-- which are libraries: what the reader makes of a file is an argument, and that `app.Run` runs the hook of
-- the root and then the action of the command is a hypothesis (`dispatch`); the hooks that only
-- tests set (`dialFn`, `newPushConsumerFn`), which are nil; and several callers of one Pulsar, RocketMQ or
-- RabbitMQ producer at once, which the program does not have: `Listen` sends from one goroutine.
pub mod Prelude
pub mod Delivery
pub mod Errors
pub mod Types
pub mod Task
pub mod Store
pub mod Queue
pub mod Source
pub mod Config
pub mod Cmd
pub mod Tests
