-- ===== src/KbHandler.antt =====
-- subsys/kb_handler: from key values to reports.
pub mod Report
pub mod Calibration
pub mod Layers
pub mod Actions
pub mod Handler
pub mod Transport
pub mod Topology
pub mod Mouse
pub mod Race
pub mod Frame
pub mod Slave
mod Tests
