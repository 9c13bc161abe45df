-- ===== src/Chat.antt =====
-- The chat: its messages, and what the language model and the browser are given of them.
pub mod Message
pub mod Json
pub mod Sanitizer
pub mod Projection
