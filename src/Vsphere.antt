-- ===== src/Vsphere.antt =====
-- virtualmachine/vsphere: machines of a vCenter server. github.com/vmware/govmomi is vendored, and is
-- a parameter.
pub mod Paths
pub mod Types
pub mod Api
pub mod Session
pub mod Search
pub mod Mobs
pub mod Hosts
pub mod Devices
pub mod Networks
pub mod Power
pub mod Changes
pub mod Destroy
pub mod Reconfigure
pub mod Clone
pub mod Templates
pub mod Fields
pub mod Kept
pub mod Disks
pub mod Provision
mod Tests
