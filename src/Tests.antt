-- ===== src/Tests.antt =====
-- The theorems at concrete chips, pins and objects.
pub mod Chip
pub mod Drivers
pub mod Analog
pub mod Cars
pub mod KernelRuns
pub mod Network
pub mod Outputs
pub mod Services
pub mod Servo
pub mod Topics
pub mod Tracks
pub mod Processes
pub mod Creations
pub mod Logging
