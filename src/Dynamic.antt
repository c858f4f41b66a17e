-- ===== src/Dynamic.antt =====
-- edge/kanban_dynamic_resource_core.py: resources that depend on the backend of a profile, and the gate
-- on the claims of the core dispatcher.
pub mod Backends
pub mod Policies
pub mod Claims
pub mod Rework
mod Tests
