-- ===== src/Tests.antt =====
-- Runs on concrete inputs: each theorem of the development that has hypotheses, applied where they
-- hold.
pub mod Boost
pub mod BoostStrings
pub mod Parameters
pub mod Redis
pub mod Websocket
pub mod Router
pub mod Application
pub mod Utilities
pub mod Connection
pub mod Response
pub mod ResponseText
pub mod Context
pub mod Websockets
pub mod RedisClient
pub mod WebsocketConnection
pub mod Form
pub mod Receiving
pub mod StaticFile
