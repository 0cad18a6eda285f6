-- ===== src/Conversation.antt =====
-- The record of the conversation (core/context).
pub mod Summarizer
pub mod Records
pub mod Plain
pub mod Context
