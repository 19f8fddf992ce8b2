-- ===== src/Redis.antt =====
-- The redis client's data and wire protocol: include/daqi/redis-client and src/redis-client.
pub mod Value
pub mod Wire
pub mod Parser
pub mod Command
pub mod Client
