-- ===== src/Peripheral/Bno055/Registers.antt =====
-- The registers and constants of src/Lib/Peripheral/BNO055/BNO055.hpp that the driver uses.
use polar_uv_robot.Prelude.{ℕ}

abbrev pub chip_id : ℕ
chip_id = 0xA0

abbrev pub address : ℕ
address = 0x29

abbrev pub page_id_reg : ℕ
page_id_reg = 0x07

abbrev pub chip_id_reg : ℕ
chip_id_reg = 0x00

abbrev pub linear_accel_data_x_lsb_reg : ℕ
linear_accel_data_x_lsb_reg = 0x28

abbrev pub euler_h_lsb_reg : ℕ
euler_h_lsb_reg = 0x1A

abbrev pub temp_reg : ℕ
temp_reg = 0x34

abbrev pub calib_stat_reg : ℕ
calib_stat_reg = 0x35

abbrev pub opr_mode_reg : ℕ
opr_mode_reg = 0x3D

abbrev pub pwr_mode_reg : ℕ
pwr_mode_reg = 0x3E

abbrev pub sys_trigger_reg : ℕ
sys_trigger_reg = 0x3F

abbrev pub power_mode_normal : ℕ
power_mode_normal = 0x00

abbrev pub operation_mode_config : ℕ
operation_mode_config = 0x00

abbrev pub operation_mode_ndof : ℕ
operation_mode_ndof = 0x0C
