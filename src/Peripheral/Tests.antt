-- ===== src/Peripheral/Tests.antt =====
-- Tests of the handler with a bus that answers every transfer, and one that answers none.
mod Measures
use polar_uv_robot.Prelude.{
  ◌-◌, ◌*◌, ◌≤◌, ◌/◌, ◌==◌, if◌then◌else◌, get_or, ℕ, List, replicate, ◌+◌, ◌^◌, ◌<◌, ◌≡◌, refl,
  true, false, Bool-cases, inl, inr, none, some, ltb, leb, ◌%◌, [], ◌∷◌, map, arith,
}
use polar_uv_robot.Prelude.Int.{ℤ, pos, negsuc, ◌+ℤ◌, ◌-ℤ◌, ◌*ℤ◌}
use polar_uv_robot.Real.{int_real}
use polar_uv_robot.Peripheral.I2c.{
  read, write_byte, Ioctl, Message, register_read, read_byte_from_register,
}
use polar_uv_robot.Peripheral.Task.{sleep_for_ms, new_task}
use polar_uv_robot.Peripheral.Handler.{SensorContext, online, offline, new_context, tick}
use polar_uv_robot.Peripheral.Bno055.{World, empty_data, bno_filters}
use polar_uv_robot.Peripheral.Bno055.Registers.{chip_id, calib_stat_reg}
use polar_uv_robot.Peripheral.Ms5837 as Ms5837
use polar_uv_robot.Peripheral.Ms5837.Words.{checksum}
use polar_uv_robot.Peripheral.Ms5837.Crc.{remainder, fours, next_four, next_bit}
use polar_uv_robot.Peripheral.Ms5837.Ranges.{correction, warm_ti_lem, first_temperature_lem}
use polar_uv_robot.Peripheral.Ms5837.Checksum.{init_checked, sent_words, accepted, Keeps}
use polar_uv_robot.Peripheral.Bno055.Init as Init
use polar_uv_robot.Peripheral.Bno055.ReadData as ReadData
use polar_uv_robot.Peripheral.Bno055.Wiring.{
  Point, initialising, reading, resume, IsAsking, request, tick-armed, tick_asking,
}
use polar_uv_robot.Peripheral.Ads1115.{Converter, two, sps128, read_config, read_adc_single_ended}
use polar_uv_robot.Peripheral.Ads1115.Waits.{read_adc_single_ended_lem}
use polar_uv_robot.Peripheral.Ads1115.Words.{fields, gain_number, rate_number, read_config_lem}
use polar_uv_robot.Peripheral.Bno055.BringUp.{ticks, ticks_online}

-- A bus that counts its transfers and fills every buffer with the number of the chip.
abbrev answer : Message → Message
answer m = record m { buf = map (λ _. chip_id) m.buf }

abbrev good_bus : Ioctl ℕ
good_bus ms n = (true, map answer ms, n + 1)

abbrev dead_bus : Ioctl ℕ
dead_bus ms n = (false, ms, n + 1)

abbrev world : World ℕ ℤ
unfolding empty_data bno_filters
world = record { bus = 0; bno = record { stored = empty_data; filters = bno_filters } }

abbrev context : ℕ → SensorContext (Point ℤ)
context fd = record {
  read_data = new_task (reading ReadData.fresh);
  init = new_task (initialising Init.fresh);
  timer = fd;
  armed = 10000000;
  state = online;
}

tick-armed_example :
    (0 < (tick (resume dead_bus 40 12 (pos 3)) (context 3) world).0.armed)
    × ((tick (resume dead_bus 40 12 (pos 3)) (context 3) world).0.armed < 10 ^ 9)
tick-armed_example = tick-armed dead_bus 40 12 (pos 3) (context 3) world

-- A sensor that is about to read its calibration.
abbrev asking : SensorContext (Point ℤ)
asking = record (context 3) {
  read_data = record { point = reading ReadData.calibrating; timespec = 0; is_active = true };
}

asking-IsAsking : IsAsking dead_bus 40 12 (pos 3) asking (register_read 40 calib_stat_reg (0 ∷ []))
unfolding request
asking-IsAsking = record {
  at = ReadData.calibrating;
  point = refl;
  asks = refl;
  flag = refl;
  state = refl;
}

tick_asking_example :
    let (c', w') = tick (resume dead_bus 40 12 (pos 3)) asking world in
    (c'.state ≡ offline)
    × (c'.read_data.is_active ≡ true)
    × (false ≡ false
        → (c'.read_data.point ≡ reading ReadData.calibrating) × (w' ≡ record world { bus = 1 }))
unfolding world
tick_asking_example =
    tick_asking dead_bus 40 12 (pos 3) asking (register_read 40 calib_stat_reg (0 ∷ [])) world
      asking-IsAsking

ticks_online_example : (ticks good_bus 40 12 (pos 3) 8 (context 3, world)).0.state ≡ online
unfolding new_context sleep_for_ms read_byte_from_register
ticks_online_example = ticks_online good_bus 40 12 (pos 3) (λ ms b. refl) (λ b. refl) 3 world

-- A pressure sensor whose bus remembers the last command. Word `i` of its memory has twice the byte
-- `i`, and the first word the checksum.
abbrev word_bytes : ℕ → List ℕ
word_bytes i = if i == 0 then 65 ∷ 1 ∷ [] else i % 256 ∷ i % 256 ∷ []

abbrev transfer : ℕ → Message → Message × ℕ
transfer last m =
    if m.flags == 1
    then (record m { buf = word_bytes ((last - 0xA0) / 2) }, last)
    else (m, get_or m.buf 0 0)

abbrev prom_bus : Ioctl ℕ
prom_bus [] last = (true, [], last)
prom_bus (m ∷ ms) last = let (m', last') = transfer last m in (true, m' ∷ ms, last')

abbrev still : Ms5837.World ℕ ℤ
still = record {
  bus = 0;
  ms = record {
    stored = record { pressure = pos 0; depth = pos 0; temperature = pos 0 };
    fluid_density = pos 997;
    calibration = replicate 8 0;
    filters = [];
  };
}

prom_bytes :
    (b : ℕ)
    → (let bs = (read prom_bus 118 (0 ∷ 0 ∷ []) b).0.1 in
        (get_or bs 0 0 < 256) × (get_or bs 1 0 < 256))
unfolding read
prom_bytes b = elim (Bool-cases ((b - 0xA0) / 2 == 0)) [
  | inl e ↦ rw (e) (omega arith, omega arith)
  | inr e ↦ rw (e) (omega arith, omega arith)
]

init_checked_example :
    let s = Ms5837.Init.init prom_bus 118 Ms5837.Init.resetting false still in
    let ws = sent_words prom_bus 118 7 0 0 in
    (s.is_active ≡ accepted ws) × Keeps (accepted ws) ws s.world.ms.calibration
init_checked_example = init_checked prom_bus 118 prom_bytes Ms5837.Init.resetting still refl

still_online : accepted (sent_words prom_bus 118 7 0 0) ≡ true
unfolding sent_words read write_byte checksum remainder fours next_four next_bit
still_online = refl

converter_byte : (a reg : ℕ) (b : ℕ) → (read_byte_from_register good_bus a reg b).0.0 < 256
unfolding read_byte_from_register
converter_byte a reg b = omega arith

abbrev converter : Converter
converter = record { gain = two; data_rate = sps128; address = 0x48 }

read_adc_single_ended_lem_example :
    read_adc_single_ended good_bus converter 50 2 0 ≡ (if ltb 2 4 then none else some (pos 0, 0))
read_adc_single_ended_lem_example =
    read_adc_single_ended_lem good_bus converter_byte converter 50 2 0

warm_ti_lem_example :
    (Ms5837.warm_ti (negsuc 299999) ≡ pos 0)
    × (leb 1 (2 * (300000 * 300000) / 137438953472) ≡ leb (2 ^ 18) 300000)
warm_ti_lem_example = warm_ti_lem (negsuc 299999)

-- The words of the sensor's data sheet.
abbrev prom : List ℕ
prom = 0 ∷ 34982 ∷ 36352 ∷ 20328 ∷ 22354 ∷ 26646 ∷ 26146 ∷ 0 ∷ []

first_temperature_lem_example :
    let dt = Ms5837.temperature_difference 6815414 prom in
    (dt ≡ pos 6815414 -ℤ pos 26646 *ℤ pos 256)
    × (Ms5837.first_temperature dt prom ≡ pos 2000 +ℤ correction dt 26146)
first_temperature_lem_example =
    first_temperature_lem 6815414 prom (omega arith) (omega arith) (omega arith)
