-- ===== src/Tests.antt =====
-- Inputs at which the theorems apply, and runs of the code on them.
mod Fixtures
mod Packets
mod Debug
mod Input
mod Startup
mod Owned
mod Start
mod Client
mod Device
mod Shutdown
mod Interface
mod Service
mod Tester
mod Description
