-- ===== src/Tests.antt =====
-- Tests of the driver's model, and the theorems at concrete inputs.
mod Fixture
mod Servos
mod Replays
mod Devices
mod Lifecycle
mod Interleaved
mod Printed
mod Robots
mod Screens
mod Sessions
mod Writes
mod Unloads
mod Reads
mod Stages
