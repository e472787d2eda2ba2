-- ===== src/Tests.antt =====
-- Concrete parameters, runs of the code on them, and the theorems at concrete inputs.
pub mod Codec
pub mod World
mod Storage
mod Service
pub mod Journeys
mod Collector
pub mod Api
pub mod Success
mod IdFactory
mod Redis
mod Etcd
mod System
mod Hasher
mod Permissions
mod Startup
mod EventStream
mod Client
