-- ===== src/Business.antt =====
-- BusinessService.cpp: sessions, rooms and the requests of the clients. Each handler runs alone here;
-- the interleavings of the work threads inside a handler are not modelled.
pub mod Basics
pub mod SendQueue
pub mod Account
pub mod Room
pub mod Info
pub mod Friend
pub mod Leave
pub mod Dispatch
pub mod Consistency
pub mod Visits
pub mod Logins
pub mod Delivery
pub mod Safety
