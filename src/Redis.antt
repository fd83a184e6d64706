-- ===== src/Redis.antt =====
-- internal/adapter/redis/wire: the reader of RESP2 replies.
pub mod Resp
