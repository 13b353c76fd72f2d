-- ===== src/Commands.antt =====
-- src/Robot/Features/Commands: the commands of the operator, the stabilization and the loop that
-- turns both into the values of the motors.
pub mod Struct
pub mod Queue
pub mod Pid
pub mod Motors
pub mod Stabilization
pub mod Cycle
pub mod Service
mod Tests
