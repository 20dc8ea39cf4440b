-- ===== src/Kafka.antt =====
-- internal/kafka: the listener that reads the partitions of the usage topic, and the monitor of
-- its lag. The broker, and the connection to it, are parameters.
pub mod Coverage
pub mod Broker
pub mod Monitor
pub mod Reader
pub mod Security
pub mod Tests
