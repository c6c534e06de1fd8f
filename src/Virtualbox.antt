-- ===== src/Virtualbox.antt =====
-- virtualmachine/virtualbox: virtual machines of VirtualBox, by way of VBoxManage.
pub mod Types
pub mod Readings
pub mod Addresses
pub mod Machines
pub mod Nics
pub mod Waiting
mod Tests
