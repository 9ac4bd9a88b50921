-- ===== src/Server.antt =====
-- Server.cpp and the reading half of BusinessService.cpp: bytes to requests, requests to handlers.
pub mod Reading
pub mod Work
