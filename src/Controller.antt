-- ===== src/Controller.antt =====
-- internal/controller/controller.go, a child for each group of its methods.
pub mod Create
pub mod Status
pub mod Connect
pub mod Recon
pub mod Queue
pub mod Setup
pub mod Pool
