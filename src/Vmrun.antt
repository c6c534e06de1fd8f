-- ===== src/Vmrun.antt =====
-- virtualmachine/vmrun: virtual machines of VMware Fusion and Workstation, by way of vmrun.
pub mod Types
pub mod Machines
mod Tests
