-- ===== src/Queue.antt =====
-- queue/: the producers that publish events and the consumers that read them back.
pub mod Amqp
pub mod Ledger
pub mod Producer
pub mod Consumer
pub mod RabbitTopology
pub mod RedisQueue
