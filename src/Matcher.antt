-- ===== src/Matcher.antt =====
-- venue/include/flox-venue/matcher.h: the matching engine's crossing loop, price-time and pro-rata,
-- over the resting book of `Book`. The callbacks that the engine installs are the record `Hooks`
-- over a state of the engine's own; the members that `cross` mutates are fields of `Run`, beside
-- the book, the engine's state and the events emitted, newest first.
pub mod Types
pub mod Plan
pub mod Stp
pub mod Sweep
pub mod ProRata
pub mod Cross
pub mod Sound
pub mod Bites
pub mod Callbacks
pub mod Total
pub mod Returns
