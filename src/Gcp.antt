-- ===== src/Gcp.antt =====
-- virtualmachine/gcp: virtual machines on the Google Compute Engine.
pub mod Types
pub mod Api
pub mod Service
pub mod Disks
pub mod Firewalls
pub mod Instances
pub mod Listing
mod Tests
pub mod Session
