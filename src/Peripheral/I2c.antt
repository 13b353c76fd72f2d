-- ===== src/Peripheral/I2c.antt =====
-- src/Lib/DataTransmissions/I2C.cpp: what each function asks of the kernel by `ioctl(I2C_RDWR)`.
use polar_uv_robot.Prelude.{ℕ, ◌%◌, ◌+◌, Bool, none, some, List, [], ◌∷◌, Bytes, get_elem?, get_or}

-- `i2c_msg`. Its length is that of its buffer.
pub record Message : Type 0 where
  pub addr : ℕ
  pub flags : ℕ
  pub buf : Bytes

-- The `ioctl` of the kernel on a bus in some state: whether it succeeds, the messages with their
-- buffers as it leaves them, and the bus after it.
abbrev pub Ioctl {ℓ} : Type ℓ → Type ℓ
Ioctl B = List Message → B → Bool × List Message × B

abbrev pub i2c_m_rd : ℕ
i2c_m_rd = 0x0001

abbrev pub i2c_m_nostart : ℕ
i2c_m_nostart = 0x4000

-- `I2C_SMBUS_READ`
abbrev pub i2c_smbus_read : ℕ
i2c_smbus_read = 1

-- The buffer of message `i`.
abbrev pub buffer_of : ℕ → List Message → Bytes
buffer_of i ms = elim (get_elem? ms i) [ none ↦ [] | some m ↦ m.buf ]

-- `(__u8) x`
abbrev pub byte : ℕ → ℕ
byte x = x % 256

abbrev pub message : ℕ → ℕ → Bytes → Message
message a f b = record { addr = a; flags = f; buf = b }

-- The write of a register's number, and a read behind it.
abbrev pub register_read : ℕ → ℕ → Bytes → List Message
register_read slave reg room =
    message slave 0 (byte reg ∷ []) ∷ message slave (i2c_m_rd + i2c_m_nostart) room ∷ []

module _ {ℓ} {B : Type ℓ} (ioctl : Ioctl B) where
  -- Whether it succeeded, and the buffer.
  unfoldable pub read : ℕ → Bytes → B → (Bool × Bytes) × B
  read slave buffer b =
      let (done, ms, b') = ioctl (message slave i2c_smbus_read buffer ∷ []) b in
      ((done, buffer_of 0 ms), b')

  unfoldable pub read_byte_from_register : ℕ → ℕ → B → (ℕ × Bool) × B
  read_byte_from_register slave reg b =
      let (done, ms, b') = ioctl (register_read slave reg (0 ∷ [])) b in
      ((get_or (buffer_of 1 ms) 0 0, done), b')

  unfoldable pub read_from_register : ℕ → ℕ → Bytes → B → (Bool × Bytes) × B
  read_from_register slave reg buffer b =
      let (done, ms, b') = ioctl (register_read slave reg buffer) b in ((done, buffer_of 1 ms), b')

  unfoldable pub write_byte_to_register : ℕ → ℕ → ℕ → B → Bool × B
  write_byte_to_register slave reg x b =
      let (done, ms, b') = ioctl (message slave 0 (byte reg ∷ byte x ∷ []) ∷ []) b in (done, b')

  unfoldable pub write_byte : ℕ → ℕ → B → Bool × B
  write_byte slave x b =
      let (done, ms, b') = ioctl (message slave 0 (byte x ∷ []) ∷ []) b in (done, b')
