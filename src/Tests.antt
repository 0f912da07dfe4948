-- ===== src/Tests.antt =====
-- A small world to run the model in, and the theorems at work there.
mod Lab
mod Mesh
mod Recon
mod Created
mod Queue
mod Client
mod Generated
mod Cache
mod Fakes
mod Program
mod Scheme
mod Wired
mod Pool
mod Served
mod Life
