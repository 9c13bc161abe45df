-- ===== src/Run.antt =====
-- backend/app/services/chat_run_service.py: one durable, idempotent run of a chat.
pub mod Model
pub mod Replay
pub mod Session
pub mod Body
pub mod Execute
