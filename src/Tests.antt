-- ===== src/Tests.antt =====
-- Concrete runs of the model.
mod Recorder
mod Instances
mod Wire
mod Framing
mod Store
mod Profiles
mod Link
mod Daemons
mod Simulation
mod Sessions
mod Clients
mod Interfaces
mod Screens
mod Uplinks
mod Downlinks
