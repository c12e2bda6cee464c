-- ===== src/Queue/RabbitTopology.antt =====
-- The two sides of RabbitMQ, queue/producer/rabbit.go and queue/consumer/rabbit.go.
pub mod Releases
pub mod Agreement
