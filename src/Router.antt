-- ===== src/Router.antt =====
-- automation/n8n/github-router/router.py: the durable queue of intake scopes, the deduplication of
-- deliveries, and the admission of signed GitHub events.
pub mod Patterns
pub mod Scope
pub mod State
pub mod Recovery
pub mod Operations
pub mod Enqueue
pub mod Known
pub mod Kept
pub mod Deliveries
pub mod Installation
pub mod Events
pub mod Server
mod Tests
mod QueueTests
