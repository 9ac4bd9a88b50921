-- ===== src/Business/Safety.antt =====
-- The handlers of BusinessService.cpp and undefined behaviour: what the proofs share, then one module
-- for each group of handlers.
pub mod Rules
pub mod Rooms
pub mod Leaving
pub mod Accounts
pub mod Queries
pub mod Requests
