-- ===== src/Connection.antt =====
-- connection.cpp: how a connection puts together what its parsers hand it.
pub mod Headers
pub mod Arrivals
pub mod Multipart
pub mod Receiving
pub mod Reply
