-- ===== src/State.antt =====
-- packages/state: what the host remembers.
pub mod Acceptance
pub mod Automations
pub mod Transcript
pub mod StoreSync
