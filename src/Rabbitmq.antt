-- ===== src/Rabbitmq.antt =====
-- internal/adapter/rabbitmq/wire: the AMQP 0-9-1 codec.
pub mod Frame
pub mod Table
pub mod Tune
