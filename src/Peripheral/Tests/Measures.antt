-- ===== src/Peripheral/Tests/Measures.antt =====
-- A test of a sensor whose registers change with every read.
use polar_uv_robot.Prelude.{ℕ, ◌+◌, ◌*◌, ◌%◌, ◌≡◌, refl, true, false, [], ◌∷◌, get_or}
use polar_uv_robot.Prelude.Int.{pos}
use polar_uv_robot.Real.{int_real}
use polar_uv_robot.Peripheral.I2c.{Ioctl}
use polar_uv_robot.Peripheral.Task.{sleep_for_us}
use polar_uv_robot.Peripheral.Bno055.{smooth}
use polar_uv_robot.Peripheral.Bno055.ReadData.{calibrating}
use polar_uv_robot.Peripheral.Bno055.Measures.{block, Answers, measured, resumed, resumed-measured}
use polar_uv_robot.Peripheral.Tests.{world}

abbrev registers : ℕ → ℕ → ℕ
registers b reg = (7 * reg + b) % 256

abbrev later : ℕ → ℕ
later b = b + 1

abbrev sensor_ioctl : Ioctl ℕ
unfolding block
sensor_ioctl (m0 ∷ m1 ∷ []) b =
    (true, m0 ∷ record m1 { buf = block (registers b) (get_or m0.buf 0 0) m1.buf } ∷ [], later b)
sensor_ioctl ms b = (false, ms, b)

sensor-Answers : Answers registers sensor_ioctl 0x29 later
unfolding block
sensor-Answers = record { answers = λ reg room b. refl }

resumed-measured_example :
    let s =
      resumed registers later sensor_ioctl 0x29
        (pos 3)
        4
        (record { point = calibrating; timespec = 0; is_active = true; world = world }) in
    let (shown, filters) = smooth (pos 3) (measured registers later world.bus) world.bno.filters in
    (s.point ≡ calibrating)
    × (s.is_active ≡ true)
    × (s.timespec ≡ sleep_for_us 2500)
    × (s.world ≡ record {
      bus = later (later (later (later world.bus)));
      bno = record { stored = shown; filters = filters };
    })
resumed-measured_example =
    resumed-measured registers later sensor_ioctl 0x29 (pos 3) sensor-Answers true world 0
