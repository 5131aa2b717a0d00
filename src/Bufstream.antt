-- ===== src/Bufstream.antt =====
-- internal/bufstream: the operator's Kafka client, over kgo and kadm.
pub mod Client
pub mod DevMode
pub mod Topic
pub mod User
pub mod Acl
pub mod Responses
