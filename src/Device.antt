-- ===== src/Device.antt =====
-- Devices, internal/device: the gates that serialize the work on a device.
pub mod Gate
pub mod Exclusion
pub mod Registry
pub mod Lookup
mod Tests
