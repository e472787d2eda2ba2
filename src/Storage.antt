-- ===== src/Storage.antt =====
-- service/storage: the user storage over a key-value driver, and the drivers.
pub mod Interface
pub mod KeyValue
pub mod Local
pub mod Tables
pub mod Follows
pub mod Refinement
pub mod Consistency
pub mod Directory
pub mod Save
pub mod Find
pub mod Contract
pub mod Keys
pub mod Redis
pub mod Etcd
pub mod RoundTrip
pub mod Race
pub mod Dropped
