-- ===== src/Request.antt =====
-- request.hpp and request.cpp: what a request makes of its parts, and where it finds a parameter.
pub mod FormData
pub mod Fields
pub mod Arrival
pub mod ContentType
pub mod Url
pub mod Members
pub mod Under
pub mod Lookup
