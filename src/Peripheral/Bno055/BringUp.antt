-- ===== src/Peripheral/Bno055/BringUp.antt =====
-- How src/Lib/Peripheral/SensorHandler.cpp brings the sensor of BNO055_I2C.cpp up.
use polar_uv_robot.Prelude.{
  ℕ, zero, suc, ◌≡◌, refl, ap, ◌∙◌, Bool, true, false, if◌then◌else◌, List, arith,
}
use polar_uv_robot.Real.{Real}
use polar_uv_robot.Peripheral.I2c.{Ioctl, Message, read_byte_from_register, write_byte_to_register}
use polar_uv_robot.Peripheral.Task.{Body}
use polar_uv_robot.Peripheral.Handler.{SensorContext, online, offline, new_context, tick}
use polar_uv_robot.Peripheral.Bno055.{World}
use polar_uv_robot.Peripheral.Bno055.Registers.{chip_id, chip_id_reg}
use polar_uv_robot.Peripheral.Bno055.Init as Init
use polar_uv_robot.Peripheral.Bno055.ReadData as ReadData
use polar_uv_robot.Peripheral.Bno055.Wiring.{Point, initialising, reading, resume}

module _ {ℓ} {B R : Type ℓ} ⦃f : Real R⦄ (ioctl : Ioctl B) (sensor_address mode : ℕ) (pi : R) where
  abbrev body : Body (Point R) (World B R)
  body = resume ioctl sensor_address mode pi

  -- The events of the timer of one sensor.
  unfoldable pub ticks :
      ℕ → SensorContext (Point R) × World B R → SensorContext (Point R) × World B R
  ticks zero s = s
  ticks (suc n) s = let (c, w) = s in ticks n (tick body c w)

  module _ (works : (ms : List Message) (b : B) → (ioctl ms b).0 ≡ true)
      (present : (b : B)
        → (read_byte_from_register ioctl sensor_address chip_id_reg b).0 ≡ (chip_id, true)) where
    -- The point after `p` when every transfer succeeds and the chip is there.
    following : Init.Point → Init.Point
    following Init.fresh = Init.attempt
    following Init.attempt = Init.probing 0
    following (Init.probing i) = Init.powering
    following Init.powering = Init.triggering
    following Init.triggering = Init.choosing
    following Init.choosing = Init.settled
    following Init.settled = Init.attempt

    is_last : Init.Point → Bool
    is_last Init.settled = true
    is_last _ = false

    written : (reg x : ℕ) (b : B) → (write_byte_to_register ioctl sensor_address reg x b).0 ≡ true
    unfolding write_byte_to_register
    written reg x b = works _ b

    init_following :
        (p : Init.Point) (w : World B R)
        → let s = Init.init ioctl sensor_address mode p false w in
          (s.point ≡ following p) × (s.is_active ≡ is_last p)
    unfolding Init.init following is_last
    init_following Init.fresh w = (refl, refl)
    init_following p w = grind (arith, present, written)

    -- A sensor that is offline, with `Init` suspended at `p`.
    record IsBooting (p : Init.Point) (c : SensorContext (Point R)) : Type ℓ where
      point : c.init.point ≡ initialising p
      flag : c.init.is_active ≡ false
      state : c.state ≡ offline

    tick_booting :
        (p : Init.Point) (c : SensorContext (Point R)) (w : World B R)
        → IsBooting p c
        → let c' = (tick body c w).0 in
          (c'.init.point ≡ initialising (following p))
          × (c'.init.is_active ≡ false)
          × (c'.state ≡ (if is_last p then online else offline))
    unfolding tick resume
    tick_booting p c w h =
        let s = init_following p w in
        rw (h.state, tick, h.point, h.flag) (ap initialising s.0, refl, rw (s.1, h.state) refl)

    -- The events left until the sensor is online, but one.
    remaining : Init.Point → ℕ
    remaining Init.fresh = 6
    remaining Init.attempt = 5
    remaining (Init.probing i) = 4
    remaining Init.powering = 3
    remaining Init.triggering = 2
    remaining Init.choosing = 1
    remaining Init.settled = 0

    remaining-zero : (p : Init.Point) → remaining p ≡ 0 → is_last p ≡ true
    unfolding remaining is_last
    remaining-zero p e = ground arith

    remaining-suc :
        (p : Init.Point) (n : ℕ)
        → remaining p ≡ suc n
        → (remaining (following p) ≡ n) × (is_last p ≡ false)
    unfolding remaining following is_last
    remaining-suc p n e = ground arith

    ticks-suc :
        (n : ℕ) (c : SensorContext (Point R)) (w : World B R)
        → ticks (suc n) (c, w) ≡ ticks n (tick body c w)
    unfolding ticks
    ticks-suc n c w = refl

    -- The first event of a new context finds that nothing was read.
    first :
        (fd : ℕ) (w : World B R)
        → IsBooting Init.fresh
            (tick body (new_context (initialising Init.fresh) (reading ReadData.fresh) fd) w).0
    unfolding tick resume new_context ReadData.read_data
    first fd w = record { point = refl; flag = refl; state = refl }

    ticks_booting :
        (n : ℕ) (p : Init.Point) (c : SensorContext (Point R)) (w : World B R)
        → IsBooting p c
        → remaining p ≡ n
        → (ticks (suc n) (c, w)).0.state ≡ online
    unfolding ticks
    ticks_booting zero p c w h e =
        (tick_booting p c w h).2 ∙ ap (λ b. if b then online else offline) (remaining-zero p e)
    ticks_booting (suc n) p c w h e =
        let (next, last) = remaining-suc p n e in
        let (point, flag, state) = tick_booting p c w h in
        let (c', w') = tick body c w in
        ticks_booting n (following p) c' w'
          (record {
            point = point;
            flag = flag;
            state = state ∙ ap (λ b. if b then online else offline) last;
          })
          next

    -- A sensor that is plugged in and answers every transfer is brought up: after the event that finds
    -- it not yet initialised, seven more take it online.
    pub ticks_online :
        (fd : ℕ) (w : World B R)
        → let c = new_context (initialising Init.fresh) (reading ReadData.fresh) fd in
          (ticks 8 (c, w)).0.state ≡ online
    unfolding remaining
    ticks_online fd w =
        let c = new_context (initialising Init.fresh) (reading ReadData.fresh) fd in
        let (c', w') = tick body c w in
        rw (ticks-suc 7 c w) (ticks_booting 6 Init.fresh c' w' (first fd w) refl)
