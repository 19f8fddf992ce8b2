-- ===== src/Router.antt =====
-- router.hpp, router.cpp and handler.cpp: which handler answers a path and a method.
pub mod Order
pub mod Map
pub mod LowerBound
pub mod Methods
pub mod Table
pub mod Regex
pub mod Pattern
pub mod Add
pub mod Longest
pub mod Erase
pub mod Inserts
