-- ===== src/Messaging/Inbound/Redriven.antt =====
-- How often packages/messaging/src/agent-messaging.ts gives a message to the runner.
use open_claw_bot.Common.{ℕ, ◌+◌, length, if◌then◌else◌}
use open_claw_bot.Messaging.Inbound.{Envelope, Inbound}
use open_claw_bot.Messaging.Inbound.Conserved.{total, batch_of}

-- The turns that a message may still have: one more after it was driven again.
abbrev turns_left : Envelope → ℕ
turns_left e = if e.is_redriven then 1 else 2

abbrev budget : Inbound → ℕ
budget s = length s.ran + total turns_left s.pending + total turns_left (batch_of s.wake)
