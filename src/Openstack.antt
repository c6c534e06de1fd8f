-- ===== src/Openstack.antt =====
-- virtualmachine/openstack: virtual machines on OpenStack.
pub mod Types
pub mod Api
pub mod Clients
pub mod Servers
pub mod Volumes
pub mod Destroy
pub mod Images
mod Tests
