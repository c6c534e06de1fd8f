-- ===== src/Digitalocean.antt =====
-- virtualmachine/digitalocean: virtual machines ("droplets") on DigitalOcean.
pub mod Types
pub mod Http
pub mod Droplets
pub mod Agreement
mod Tests
pub mod Session
