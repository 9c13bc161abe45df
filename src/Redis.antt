-- ===== src/Redis.antt =====
-- backend/app/services/redis_store.py: run locks, WebSocket tickets, rate limits and the message
-- history, over a Redis server that the program only calls.
pub mod Server
pub mod Lock
pub mod Ticket
pub mod RateLimit
pub mod History
