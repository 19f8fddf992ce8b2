-- ===== src/Application.antt =====
-- application.hpp, application.cpp and url.cpp: how an application registers handlers and finds the
-- one that answers a request, and how the manager finds the application of a path.
pub mod Url
pub mod Dispatch
pub mod Answers
pub mod Manager
pub mod Intercepter
pub mod Websockets
