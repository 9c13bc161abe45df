-- ===== src/Artifacts.antt =====
-- The artifacts of a chat: what the agent's tools see, and what becomes of the files of a run.
pub mod Gateway
pub mod Outputs
pub mod Uploads
