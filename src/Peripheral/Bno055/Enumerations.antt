-- ===== src/Peripheral/Bno055/Enumerations.antt =====
-- The enumerations of src/Lib/Peripheral/BNO055/BNO055.hpp.
use polar_uv_robot.Prelude.{ℕ}

-- `BNO055_REGISTERS`
pub data Register : Type 0 where
  page_id_reg chip_id_reg accel_rev_id_reg : Register
  mag_rev_id_reg gyro_rev_id_reg sw_rev_id_lsb_reg : Register
  sw_rev_id_msb_reg bl_rev_id_reg accel_data_x_lsb_reg : Register
  accel_data_x_msb_reg accel_data_y_lsb_reg accel_data_y_msb_reg : Register
  accel_data_z_lsb_reg accel_data_z_msb_reg mag_data_x_lsb_reg : Register
  mag_data_x_msb_reg mag_data_y_lsb_reg mag_data_y_msb_reg : Register
  mag_data_z_lsb_reg mag_data_z_msb_reg gyro_data_x_lsb_reg : Register
  gyro_data_x_msb_reg gyro_data_y_lsb_reg gyro_data_y_msb_reg : Register
  gyro_data_z_lsb_reg gyro_data_z_msb_reg euler_h_lsb_reg : Register
  euler_h_msb_reg euler_r_lsb_reg euler_r_msb_reg : Register
  euler_p_lsb_reg euler_p_msb_reg quaternion_data_w_lsb_reg : Register
  quaternion_data_w_msb_reg quaternion_data_x_lsb_reg quaternion_data_x_msb_reg : Register
  quaternion_data_y_lsb_reg quaternion_data_y_msb_reg quaternion_data_z_lsb_reg : Register
  quaternion_data_z_msb_reg linear_accel_data_x_lsb_reg linear_accel_data_x_msb_reg : Register
  linear_accel_data_y_lsb_reg linear_accel_data_y_msb_reg linear_accel_data_z_lsb_reg : Register
  linear_accel_data_z_msb_reg gravity_data_x_lsb_reg gravity_data_x_msb_reg : Register
  gravity_data_y_lsb_reg gravity_data_y_msb_reg gravity_data_z_lsb_reg : Register
  gravity_data_z_msb_reg temp_reg calib_stat_reg : Register
  selftest_result_reg intr_stat_reg sys_clk_stat_reg : Register
  sys_stat_reg sys_err_reg unit_sel_reg : Register
  opr_mode_reg pwr_mode_reg sys_trigger_reg : Register
  temp_source_reg axis_map_config_reg axis_map_sign_reg : Register
  sic_matrix_0_lsb_reg sic_matrix_0_msb_reg sic_matrix_1_lsb_reg : Register
  sic_matrix_1_msb_reg sic_matrix_2_lsb_reg sic_matrix_2_msb_reg : Register
  sic_matrix_3_lsb_reg sic_matrix_3_msb_reg sic_matrix_4_lsb_reg : Register
  sic_matrix_4_msb_reg sic_matrix_5_lsb_reg sic_matrix_5_msb_reg : Register
  sic_matrix_6_lsb_reg sic_matrix_6_msb_reg sic_matrix_7_lsb_reg : Register
  sic_matrix_7_msb_reg sic_matrix_8_lsb_reg sic_matrix_8_msb_reg : Register
  accel_offset_x_lsb_reg accel_offset_x_msb_reg accel_offset_y_lsb_reg : Register
  accel_offset_y_msb_reg accel_offset_z_lsb_reg accel_offset_z_msb_reg : Register
  mag_offset_x_lsb mag_offset_x_msb_reg mag_offset_y_lsb_reg : Register
  mag_offset_y_msb_reg mag_offset_z_lsb_reg mag_offset_z_msb_reg : Register
  gyro_offset_x_lsb_reg gyro_offset_x_msb_reg gyro_offset_y_lsb_reg : Register
  gyro_offset_y_msb_reg gyro_offset_z_lsb_reg gyro_offset_z_msb_reg : Register
  accel_radius_lsb_reg accel_radius_msb_reg mag_radius_lsb_reg : Register
  mag_radius_msb_reg : Register

-- Its values.
unfoldable pub address_of : Register → ℕ
address_of page_id_reg = 0x07
address_of chip_id_reg = 0x00
address_of accel_rev_id_reg = 0x01
address_of mag_rev_id_reg = 0x02
address_of gyro_rev_id_reg = 0x03
address_of sw_rev_id_lsb_reg = 0x04
address_of sw_rev_id_msb_reg = 0x05
address_of bl_rev_id_reg = 0x06
address_of accel_data_x_lsb_reg = 0x08
address_of accel_data_x_msb_reg = 0x09
address_of accel_data_y_lsb_reg = 0x0A
address_of accel_data_y_msb_reg = 0x0B
address_of accel_data_z_lsb_reg = 0x0C
address_of accel_data_z_msb_reg = 0x0D
address_of mag_data_x_lsb_reg = 0x0E
address_of mag_data_x_msb_reg = 0x0F
address_of mag_data_y_lsb_reg = 0x10
address_of mag_data_y_msb_reg = 0x11
address_of mag_data_z_lsb_reg = 0x12
address_of mag_data_z_msb_reg = 0x13
address_of gyro_data_x_lsb_reg = 0x14
address_of gyro_data_x_msb_reg = 0x15
address_of gyro_data_y_lsb_reg = 0x16
address_of gyro_data_y_msb_reg = 0x17
address_of gyro_data_z_lsb_reg = 0x18
address_of gyro_data_z_msb_reg = 0x19
address_of euler_h_lsb_reg = 0x1A
address_of euler_h_msb_reg = 0x1B
address_of euler_r_lsb_reg = 0x1C
address_of euler_r_msb_reg = 0x1D
address_of euler_p_lsb_reg = 0x1E
address_of euler_p_msb_reg = 0x1F
address_of quaternion_data_w_lsb_reg = 0x20
address_of quaternion_data_w_msb_reg = 0x21
address_of quaternion_data_x_lsb_reg = 0x22
address_of quaternion_data_x_msb_reg = 0x23
address_of quaternion_data_y_lsb_reg = 0x24
address_of quaternion_data_y_msb_reg = 0x25
address_of quaternion_data_z_lsb_reg = 0x26
address_of quaternion_data_z_msb_reg = 0x27
address_of linear_accel_data_x_lsb_reg = 0x28
address_of linear_accel_data_x_msb_reg = 0x29
address_of linear_accel_data_y_lsb_reg = 0x2A
address_of linear_accel_data_y_msb_reg = 0x2B
address_of linear_accel_data_z_lsb_reg = 0x2C
address_of linear_accel_data_z_msb_reg = 0x2D
address_of gravity_data_x_lsb_reg = 0x2E
address_of gravity_data_x_msb_reg = 0x2F
address_of gravity_data_y_lsb_reg = 0x30
address_of gravity_data_y_msb_reg = 0x31
address_of gravity_data_z_lsb_reg = 0x32
address_of gravity_data_z_msb_reg = 0x33
address_of temp_reg = 0x34
address_of calib_stat_reg = 0x35
address_of selftest_result_reg = 0x36
address_of intr_stat_reg = 0x37
address_of sys_clk_stat_reg = 0x38
address_of sys_stat_reg = 0x39
address_of sys_err_reg = 0x3A
address_of unit_sel_reg = 0x3B
address_of opr_mode_reg = 0x3D
address_of pwr_mode_reg = 0x3E
address_of sys_trigger_reg = 0x3F
address_of temp_source_reg = 0x40
address_of axis_map_config_reg = 0x41
address_of axis_map_sign_reg = 0x42
address_of sic_matrix_0_lsb_reg = 0x43
address_of sic_matrix_0_msb_reg = 0x44
address_of sic_matrix_1_lsb_reg = 0x45
address_of sic_matrix_1_msb_reg = 0x46
address_of sic_matrix_2_lsb_reg = 0x47
address_of sic_matrix_2_msb_reg = 0x48
address_of sic_matrix_3_lsb_reg = 0x49
address_of sic_matrix_3_msb_reg = 0x4A
address_of sic_matrix_4_lsb_reg = 0x4B
address_of sic_matrix_4_msb_reg = 0x4C
address_of sic_matrix_5_lsb_reg = 0x4D
address_of sic_matrix_5_msb_reg = 0x4E
address_of sic_matrix_6_lsb_reg = 0x4F
address_of sic_matrix_6_msb_reg = 0x50
address_of sic_matrix_7_lsb_reg = 0x51
address_of sic_matrix_7_msb_reg = 0x52
address_of sic_matrix_8_lsb_reg = 0x53
address_of sic_matrix_8_msb_reg = 0x54
address_of accel_offset_x_lsb_reg = 0x55
address_of accel_offset_x_msb_reg = 0x56
address_of accel_offset_y_lsb_reg = 0x57
address_of accel_offset_y_msb_reg = 0x58
address_of accel_offset_z_lsb_reg = 0x59
address_of accel_offset_z_msb_reg = 0x5A
address_of mag_offset_x_lsb = 0x5B
address_of mag_offset_x_msb_reg = 0x5C
address_of mag_offset_y_lsb_reg = 0x5D
address_of mag_offset_y_msb_reg = 0x5E
address_of mag_offset_z_lsb_reg = 0x5F
address_of mag_offset_z_msb_reg = 0x60
address_of gyro_offset_x_lsb_reg = 0x61
address_of gyro_offset_x_msb_reg = 0x62
address_of gyro_offset_y_lsb_reg = 0x63
address_of gyro_offset_y_msb_reg = 0x64
address_of gyro_offset_z_lsb_reg = 0x65
address_of gyro_offset_z_msb_reg = 0x66
address_of accel_radius_lsb_reg = 0x67
address_of accel_radius_msb_reg = 0x68
address_of mag_radius_lsb_reg = 0x69
address_of mag_radius_msb_reg = 0x6A

-- `PowerMode`
pub data PowerMode : Type 0 where
  power_mode_normal power_mode_lowpower power_mode_suspend : PowerMode

unfoldable pub power_code : PowerMode → ℕ
power_code power_mode_normal = 0x00
power_code power_mode_lowpower = 0x01
power_code power_mode_suspend = 0x02

-- `OperationMode`
pub data OperationMode : Type 0 where
  operation_mode_config operation_mode_acconly operation_mode_magonly : OperationMode
  operation_mode_gyronly operation_mode_accmag operation_mode_accgyro : OperationMode
  operation_mode_maggyro operation_mode_amg operation_mode_imuplus : OperationMode
  operation_mode_compass operation_mode_m4g operation_mode_ndof_fmc_off : OperationMode
  operation_mode_ndof : OperationMode

unfoldable pub mode_code : OperationMode → ℕ
mode_code operation_mode_config = 0x00
mode_code operation_mode_acconly = 0x01
mode_code operation_mode_magonly = 0x02
mode_code operation_mode_gyronly = 0x03
mode_code operation_mode_accmag = 0x04
mode_code operation_mode_accgyro = 0x05
mode_code operation_mode_maggyro = 0x06
mode_code operation_mode_amg = 0x07
mode_code operation_mode_imuplus = 0x08
mode_code operation_mode_compass = 0x09
mode_code operation_mode_m4g = 0x0A
mode_code operation_mode_ndof_fmc_off = 0x0B
mode_code operation_mode_ndof = 0x0C
