-- ===== src/Emitters.antt =====
-- The emitters: crates/hookbox/src/emitter.rs and the crates hookbox-emitter-kafka, -nats, -sqs
-- and -redis.
pub mod Brokers
pub mod Local
pub mod Kafka
pub mod Nats
pub mod Sqs
pub mod Redis
