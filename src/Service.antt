-- ===== src/Service.antt =====
-- service: the user service (service.go), with the interfaces that it takes (backends.go), the
-- wrapper of its storage (backend_wrapper.go) and the events that it collects (collector.go).
pub mod Backends
pub mod Users
pub mod Login
pub mod Effects
pub mod Methods
pub mod Changes
pub mod Reset
pub mod Rehash
pub mod Authenticate
pub mod Success
pub mod Recovery
pub mod Journeys
pub mod Collector
pub mod Create
