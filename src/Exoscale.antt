-- ===== src/Exoscale.antt =====
-- virtualmachine/exoscale: virtual machines on Exoscale.
pub mod Types
pub mod Api
pub mod Lookups
pub mod Machines
pub mod Creation
mod Tests
pub mod Session
