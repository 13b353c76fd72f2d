-- ===== src/Peripheral.antt =====
-- src/Lib/Peripheral, src/Lib/Schedular and src/Lib/DataTransmissions/I2C.cpp: the sensors on the I2C
-- bus, their coroutines, and the handler that resumes them.
pub mod I2c
pub mod Task
pub mod Handler
pub mod Bno055
pub mod Ms5837
pub mod Ads1115
mod Tests
