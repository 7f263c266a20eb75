-- ===== src/HubServer.antt =====
-- connect/hub/hubsrv.go: the node-facing server, over the storage backend and the router.
pub mod Interface
pub mod Laws
pub mod Exec
pub mod Auth
pub mod Handlers
pub mod Rosters
pub mod Serving
pub mod Calls
pub mod OverStandalone
mod Tests
