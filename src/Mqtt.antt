-- ===== src/Mqtt.antt =====
-- The MQTT transport, internal/transport/mqtt: its connection, and the broker's
-- answers to the subscriptions.
pub mod Answers
pub mod Client
