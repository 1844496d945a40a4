-- ===== src/Conversation.antt =====
-- Conversations as their readers see them: packages/shared/src/conversation.ts,
-- packages/shared/src/conversation-trace.ts and packages/shared/src/conversation-activity.ts.
pub mod Log
pub mod Activity
pub mod Trace
pub mod Transcript
pub mod Projection
