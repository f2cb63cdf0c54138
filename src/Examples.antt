-- ===== src/Examples.antt =====
-- A disk in memory and a toy block cipher, on which the theorems of the other modules are applied to
-- concrete volumes.
pub mod Disk
pub mod Sweep
mod Thread
mod Engine
mod Filter
mod Loader
pub mod Jvck
pub mod Metadata
mod Config
mod Vendor
pub mod Dispatch
mod Prepare
