-- ===== src/Sensors/Tests.antt =====
-- Tests of the sensors' service on whole numbers.
use polar_uv_robot.Prelude.{◌*◌, ◌≡◌, refl, [], ◌∷◌, Bytes, length, take, drop, get_or, arith}
use polar_uv_robot.Prelude.Int.{ℤ, pos, pos_part}
use polar_uv_robot.Real.{int_real, int_convert}
use polar_uv_robot.Network.Packet.{to_le}
use polar_uv_robot.Network.Exec.{returned}
use polar_uv_robot.Peripheral.Bno055.{triple}
use polar_uv_robot.Sensors.{SensorsState, read}
use polar_uv_robot.Sensors.Layout.{published, read_lem}

abbrev bytes_of : ℤ → Bytes
unfolding to_le
bytes_of x = to_le 4 (pos_part x)

four : (x : ℤ) → length (bytes_of x) ≡ 4
unfolding bytes_of to_le
four x = refl

abbrev pad : Bytes
pad = 0 ∷ 0 ∷ 0 ∷ []

abbrev state : SensorsState ℤ
state = record {
  bno055 = record {
    stored = record {
      euler_angle = triple (pos 10) (pos 20) (pos 30);
      linear_acceleration = triple (pos 1) (pos 2) (pos 3);
      calibration = 3 ∷ 3 ∷ 2 ∷ 1 ∷ [];
      temperature = pos 25;
    };
    filters = [];
  };
  ms5837 = record {
    stored = record { pressure = pos 1000; depth = pos 7; temperature = pos 12 };
    fluid_density = pos 997;
    calibration = [];
    filters = [];
  };
}

-- The depth.
read_lem_example :
    (bs : Bytes) × (read ℤ bytes_of pad state ≡ (returned bs, state))
    × (length bs ≡ 48)
    × (take 4 (drop (4 * 7) bs) ≡ bytes_of (get_or (published state) 7 (pos 0)))
read_lem_example = read_lem bytes_of four pad refl state 7 (omega arith)
