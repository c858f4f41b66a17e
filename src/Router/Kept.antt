-- ===== src/Router/Kept.antt =====
-- Scopes that survive the recovery of a stored state.
pub mod Handled
pub mod Queue
pub mod Claims
pub mod Settled
pub mod Recovered
pub mod Lossless
pub mod Requeued
pub mod Answers
pub mod Flight
pub mod Handover
