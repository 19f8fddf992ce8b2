-- ===== src/Websocket.antt =====
-- The websocket side of the server: include/daqi/websocket and src/websocket.
pub mod Frame
pub mod Connection
pub mod Connections
