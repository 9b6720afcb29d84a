-- ===== src/Tests.antt =====
-- A cluster in memory, a grant in it, and each theorem at a concrete input.
mod Untyped
mod Memory
mod Fixtures
mod Api
mod Session
mod Passes
mod Watches
mod Helm
mod Platform
