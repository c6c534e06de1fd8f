-- ===== src/Aws/Wait.antt =====
-- virtualmachine/aws/wait.go: the loops that poll EC2 until an instance or a volume is in a state.
pub mod Ready
pub mod State
pub mod Volume
pub mod Bounds
