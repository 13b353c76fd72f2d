-- ===== src/Robot/Bus.antt =====
-- From the loop of src/Robot/Features/Commands/CommandsCycle.cpp over the sender that
-- src/Robot/Features/StartSettings/StartSettings.cpp opens to the motors' end of the bus.
use polar_uv_robot.Prelude.{
  ℕ, length, ◌*◌, ◌≡◌, true, Option, none, some, List, [], ◌∷◌, map, Bytes, All, arith,
}
use polar_uv_robot.Real.{Real, Convert}
use polar_uv_robot.Network.Buffer.{Zstd}
use polar_uv_robot.Network.Session.{Session}
use polar_uv_robot.Settings.{SettingsState, new_settings}
use polar_uv_robot.Commands.Motors.{MotorsStruct, motors_struct_len_message}
use polar_uv_robot.Commands.Motors.Spi.{send}
use polar_uv_robot.Commands.Motors.Received.{IsWord, receive, receive-send}
use polar_uv_robot.Commands.Cycle.{hi_pwm, movement, form_motors_struct, word_of}
use polar_uv_robot.Robot.Start.{StartSettings, Spi, rov}
use polar_uv_robot.Robot.{RobotState, Platform, set_up}
use polar_uv_robot.Commands.Cycle.Rounds.{sent_for}
use polar_uv_robot.Robot.Model.{Event}
use polar_uv_robot.Robot.Loop.{Point, found, finish}
use polar_uv_robot.Robot.Run.{
  Run, ready, connected, served, has_oriented, has_sounded, commands_taken, settings_taken,
  orientation_taken, finished,
}
use polar_uv_robot.Robot.Sends.{HasSize-Run}
use polar_uv_robot.Robot.Services.{set_up-IsReady}

abbrev AreWords : MotorsStruct → Type 0
AreWords m = All IsWord m.hi_pwm × All IsWord m.low_pwm

module _ {ℓ} {F : Type ℓ} ⦃f : Real F⦄ where
  words : (xs : List F) → All IsWord (map word_of xs)
  unfolding word_of
  words [] = tt
  words (x ∷ xs) = (omega arith, words xs)

  formed :
      (hi : Option (List F)) (low : List F) (sent : MotorsStruct)
      → elim hi [ none ↦ none | some out ↦ some (form_motors_struct out low) ] ≡ some sent
      → AreWords sent
  unfolding form_motors_struct
  formed none low sent e = cc
  formed (some out) low sent e =
      let same : form_motors_struct out low ≡ sent = cc in rw (← same) (words out, words low)

module _ {ℓ κ} {F : Type ℓ} {D : Type κ} ⦃f : Real F⦄ ⦃d : Real D⦄ ⦃conv : Convert F D⦄ where
  -- What the robot has sent are words of 16 bits.
  AreWords-Run :
      (p : Platform F) (z : Zstd) {s t : Session (RobotState F D)} {labels : List (Event F D)}
      {sent : List MotorsStruct} {at : Point F D}
      → Run p z s labels sent at t
      → All AreWords sent
  unfolding finish sent_for form_motors_struct
  AreWords-Run p z ready = tt
  AreWords-Run p z (connected k r e) = AreWords-Run p z r
  AreWords-Run p z (served r e) = AreWords-Run p z r
  AreWords-Run p z (has_oriented x r e) = AreWords-Run p z r
  AreWords-Run p z (has_sounded x r e) = AreWords-Run p z r
  AreWords-Run p z (commands_taken dt r e) = AreWords-Run p z r
  AreWords-Run p z (settings_taken dt c r) = AreWords-Run p z r
  AreWords-Run p z (orientation_taken dt c settings r) = AreWords-Run p z r
  AreWords-Run p z (finished {t = t} dt c settings b x r sends e) =
      let i = found dt settings b t.state in
      let move = (movement D i c t.state.pids).0 in
      (formed (hi_pwm D i.settings move c.hand) c.low_pwm x sends, AreWords-Run p z r)

-- A struct goes over a bus of this speed as one transfer of 76 bytes, and a receiver that looks for the
-- marks gets exactly this struct out of the transfer twice, with nothing left over.
abbrev pub Arrives : ℕ → ℕ → MotorsStruct → Type 0
Arrives speed pad sent =
    let (done, transfer) = send (record { speed = speed }) pad sent in
    (done ≡ true)
    × (transfer.speed_hz ≡ speed)
    × (transfer.len ≡ 2 * motors_struct_len_message)
    × ((rest : Bytes) × (receive transfer.tx_buf ≡ some (sent, rest))
        × (receive rest ≡ some (sent, [])))

all_arrive :
    (speed pad : ℕ) (sent : List MotorsStruct)
    → All (λ x. (length x.hi_pwm ≡ 12) × (length x.low_pwm ≡ 4)) sent
    → All AreWords sent
    → All (Arrives speed pad) sent
all_arrive speed pad [] h k = tt
all_arrive speed pad (x ∷ xs) ((twelve, four), h) ((hi, low), k) =
    (receive-send pad x twelve four hi low (record { speed = speed }), all_arrive speed pad xs h k)

module _ {ℓ κ} {F : Type ℓ} {D : Type κ} ⦃f : Real F⦄ ⦃d : Real D⦄ ⦃conv : Convert F D⦄ where
  -- From a successful set-up on, in whatever order the steps of the session, of the sensors and of the
  -- loop take turns, as long as no request ends the program: each struct that the robot has sent goes
  -- over the sender of the start settings as one transfer of 76 bytes at the speed of that sender, and
  -- a receiver that looks for the marks gets exactly this struct out of the transfer twice, with
  -- nothing left over.
  pub receive-Run :
      (z : Zstd) (p : Platform F) (file : Bytes) (start : StartSettings) (sender : Spi)
      (settings : SettingsState F) (s t : Session (RobotState F D)) (labels : List (Event F D))
      (sent : List MotorsStruct) (at : Point F D) (pad : ℕ)
      → start.mode ≡ rov
      → start.motors_sender ≡ some sender
      → new_settings p.settings_protobuf file ≡ some settings
      → s.services ≡ []
      → Run p z (set_up p file start s).1 labels sent at t
      → All (Arrives sender.speed_hz pad) sent
  receive-Run z p file start sender settings s t labels sent at pad m e n empty r =
      all_arrive sender.speed_hz pad sent
        (HasSize-Run p z (set_up-IsReady p file start sender settings s m e n empty) r)
        (AreWords-Run p z r)
