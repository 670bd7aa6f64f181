-- ===== src/Gateway.antt =====
-- apps/base/shared-api/boundary.py: the ASGI boundary around the gateway application.
pub mod State
pub mod Auth
pub mod Body
pub mod Control
pub mod Chat
pub mod Route
pub mod Admission
pub mod Orders
pub mod Run
pub mod Safety
mod Tests
