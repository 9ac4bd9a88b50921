-- ===== src/Tests.antt =====
-- Runs on a small server: a client in the lobby, and the same client in a room it has made.
mod Scene
mod Sessions
mod Reading
mod Clients
mod Accounts
mod Pools
mod Threads
mod Friends
mod Files
