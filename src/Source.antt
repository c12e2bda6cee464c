-- ===== src/Source.antt =====
-- source/: the MySQL source that turns binlog rows into events and keeps the position.
pub mod Rows
pub mod Position
pub mod Restarts
pub mod Lifecycle
