-- ===== src/Utilities.antt =====
-- The utilities: base64 and the encoding of URLs.
pub mod Base64
pub mod Http
pub mod Strings
pub mod Parameters
