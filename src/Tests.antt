-- ===== src/Tests.antt =====
-- Runs at concrete inputs: of the matching core, and of the components beside it.
mod Matching
mod Books
mod Beside
mod Market
mod Limits
mod Texts
mod Throttle
mod Pegging
