-- ===== src/Commands/Motors/Spi.antt =====
-- src/Lib/DataTransmissions/SPI.cpp: the transfer that the kernel is asked for, and
-- src/Robot/Features/MotorsSender/SPI.hpp, which asks for one with the values of the motors.
use polar_uv_robot.Prelude.{ℕ, Bool, true, Bytes, length}
use polar_uv_robot.Commands.Motors.{MotorsStruct, send_motors_struct}

-- `SPI`, without its descriptor; the number of bits and the delay are constants of the class.
pub record Device : Type 0 where
  pub speed : ℕ

abbrev pub bits : ℕ
bits = 8

abbrev pub delay : ℕ
delay = 0

-- `spi_ioc_transfer`, with the bytes that are sent; nothing is received.
pub record Transfer : Type 0 where
  pub bits_per_word : ℕ
  pub cs_change : ℕ
  pub len : ℕ
  pub tx_buf : Bytes
  pub speed_hz : ℕ
  pub delay_usecs : ℕ

-- `ReadWrite`. The result of the `ioctl` is dropped.
unfoldable pub read_write : Device → Bytes → Transfer
read_write spi tx = record {
  bits_per_word = bits;
  cs_change = 0;
  len = length tx;
  tx_buf = tx;
  speed_hz = spi.speed;
  delay_usecs = delay;
}

-- `SendMotorsStruct`, with its result.
unfoldable pub send : Device → ℕ → MotorsStruct → Bool × Transfer
unfolding read_write send_motors_struct
send spi pad m = (true, read_write spi (send_motors_struct pad m))
