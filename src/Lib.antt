-- ===== src/Lib.antt =====
-- A verification library for CustomCloudBot (OpenClawBot), a self-hosted bot platform: the packages
-- of a host that runs agents, and the room server apps/community.
--
-- Parts and how they meet. A host gives each agent a run queue and counts the runs in flight
-- (packages/core). It keeps the messages of a conversation in a transcript, user sends pass the
-- acceptance ledger before they enter the queue, and its clock starts automations
-- (packages/state). Messages of other agents wait in the inbound queue and enter by wakes on the
-- agent lane; rooms run a bounded conversation of several agents, and rooms of other users are
-- reached by the relay (packages/messaging). Clients call the host over a port; or they post to its
-- gateway, which dedupes a prompt that is sent again by that ledger, and read its events from a
-- stream (packages/transport). The room server chooses an API key for each turn, counts what the
-- answers used, keeps each user's sidebar, sends notifications, and lets a mail start a task only
-- if it is authentic (apps/community).
--
-- Files and sources.
--   Common: the names that all parts share, Boolean tests, lists over native numbers, maps in
--     insertion order (`Map`), texts as UTF-16 units, decimals, and texts of lines.
--   Core.Scheduler: packages/core/src/run-scheduler.ts (RunScheduler). One function for each method
--     and timer; promises, timers and microtasks are the effects that a method returns, and their
--     firing is an event of `step`.
--   Core.IdleWatchdog: packages/core/src/policies.ts (createIdleWatchdogPolicy) with `schedule` of
--     packages/core/src/clock.ts.
--   Core.Lifecycle: packages/core/src/run-lifecycle.ts (RunLifecycle).
--   Messaging.Relay: packages/messaging/src/cross-user-relay.ts (CrossUserRelay). A turn is two
--     steps, before and behind its await, so that turns interleave.
--   Messaging.GroupChat, Messaging.Orchestrator: packages/messaging/src/group-chat.ts and
--     packages/messaging/src/group-orchestrator.ts (GroupChatOrchestrator.run). The hub, the runners
--     and the currency check are functions of the number of calls made so far.
--   Messaging.Inbound: packages/messaging/src/agent-messaging.ts (pendingAgentInbound,
--     reviveForAgentInbound, runAgentInboundWake, prioritize, mergeQueues) for one recipient.
--   State.Acceptance: packages/state/src/acceptance-ledger.ts (AcceptanceLedger), with `load` split at
--     the read of the file.
--   State.Transcript: packages/state/src/transcript.ts (TranscriptStore and nextEntryId), with the
--     text of its file.
--   State.StoreSync: packages/state/src/agent-store-sync.ts (AgentStoreSync on the in-memory
--     backend).
--   State.Automations: packages/state/src/automations.ts (AutomationStore and the tick of
--     AutomationScheduler); a dispatch is a function that may change the store.
--   Community.Usage: apps/community/usage.mjs; Events has the sanitizers and usageEvent, Store the
--     two tables.
--   Community.Providers: apps/community/providers.mjs (choose and onProviderFailure); Read has readProviders.
--   Community.MailAuth: apps/community/mail-auth.mjs (verifyMail); Verify has the guards, Pipeline
--     their order.
--   Community.Mailbox: apps/community/mailbox.mjs (list and send of createMailbox); Read has
--     read and raw.
--   Community.Push: apps/community/push.mjs (enqueue, pump and close of createPushService).
--   Community.Sidebar: apps/community/sidebar.mjs (createSidebarStore).
--   Transport.Frames: packages/transport/src/frames.ts, the frames and how they are read.
--   Transport.Port: packages/transport/src/port.ts; the server here, the client in Port.Client. The
--     calls in flight are tickets, and a frame on its way is its raw JSON.
--   Transport.Sse: packages/transport/src/sse.ts (SseBlockDecoder) for chunks that are texts; Gateway
--     has the server side of the stream (handleEvents) and parseSseBlock, Requests has
--     handleRequest, Send has sendPrompt, and Loop has runEventLoop and streamEvents with the delays
--     of packages/core/src/policies.ts.
-- The modules below these state and prove; each Examples module runs its part on concrete data.
--
-- Bounds and fuel. Numbers are natural numbers; those of the source that this library reads are
-- counts, times in milliseconds and code units, and stay below 2 ^ 53. The fuel of the decoder's
-- loop is the length of its buffer: each pass removes at least the blank line it found. The fuel of
-- a decimal is its number and one, and each digit divides what is left by ten. The rounds of a
-- conversation are the three of the source. Every other function is structurally recursive.
--
-- Not modelled. Code outside the repository is a parameter: JSON, the parsers of mail and of dates,
-- the DKIM check, `toLowerCase`, the runners and the hub. Left out are sockets, SQL beyond the two
-- usage tables, processes, files beyond what the ledger and the transcript write, the browser
-- client, and the parts of the repository that no file above is about.
pub mod Common
pub mod Community
pub mod Core
pub mod Messaging
pub mod State
pub mod Transport
