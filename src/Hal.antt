-- ===== src/Hal.antt =====
-- The drivers over ESP-IDF: components/bmc_hal, components/sensor_hal and components/nic_chip_hal.
pub mod Bmc
pub mod Sensor
pub mod NicChip
