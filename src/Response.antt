-- ===== src/Response.antt =====
-- The text of a response on its way to the voice (core/response).
pub mod Sanitize
pub mod Aggregator
