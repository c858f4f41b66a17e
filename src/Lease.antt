-- ===== src/Lease.antt =====
-- automation/n8n/lease-controller/controller.py: the lease file, the actuator call with its retries,
-- the background thread of a trigger, and the HTTP handlers.
pub mod Defs
pub mod Actuator
pub mod Handlers
pub mod Phase
pub mod Moves
pub mod System
pub mod Steps
pub mod Pausing
pub mod Serving
mod Tests
