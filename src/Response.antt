-- ===== src/Response.antt =====
-- response.hpp and response.cpp: the text of a response, its cookies, and its bodies when it is sent
-- in chunks.
pub mod Hex
pub mod Chunked
pub mod Status
pub mod Cookie
pub mod Cookies
pub mod Text
pub mod KeepAlive
