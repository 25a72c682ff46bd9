-- ===== src/Messaging.antt =====
-- packages/messaging: what agents, rooms and users send to one another.
pub mod Relay
pub mod GroupChat
pub mod Orchestrator
pub mod Inbound
