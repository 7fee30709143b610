-- ===== src/Broker.antt =====
-- bus/src/mqtt/bus.go and bus/src/kafka/bus.go: the two brokers, and what they share, the table of
-- the requests that wait for an answer and of the handlers.
pub mod Table
pub mod Mqtt
pub mod Kafka
pub mod Waiting
pub mod Answering
pub mod Requests
pub mod Numbering
pub mod Agreement
