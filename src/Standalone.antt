-- ===== src/Standalone.antt =====
-- The standalone hub: its sqlite state, the backend that the hub server calls, and the REST API.
pub mod Db
pub mod Exec
pub mod Messages
pub mod Steps
pub mod Backend
pub mod Answers
pub mod Rest
pub mod Calls
pub mod StartUp
pub mod Fixtures
