-- ===== src/Aws.antt =====
-- virtualmachine/aws: virtual machines on Amazon EC2.
pub mod Types
pub mod Api
pub mod Service
pub mod Wait
pub mod Launch
pub mod Lifecycle
pub mod Rules
pub mod Volumes
pub mod Listing
pub mod Images
pub mod Keys
mod Tests
pub mod Session
