-- ===== src/Robot/Tests.antt =====
-- Tests of the whole robot on whole numbers, with zstd replaced by a store and a generated parser that
-- knows one message.
mod Boot
mod Traces
use polar_uv_robot.Prelude.{
  ℕ, ◌≤◌, ◌<◌, ◌≡◌, refl, true, false, none, some, [], ◌∷◌, ◌++◌, Bytes, length, length-replicate,
  replicate, utf8, arith,
}
use mathlib.Core.List.{foldl}
use polar_uv_robot.Prelude.Int.{ℤ, pos, negsuc}
use polar_uv_robot.Real.{int_real, int_convert}
use polar_uv_robot.Network.Packet.{from_le}
use polar_uv_robot.Network.Packet.Layout.{request_bytes}
use polar_uv_robot.Network.Exec.{returned}
use polar_uv_robot.Network.Buffer.{capacity, empty_buffer}
use polar_uv_robot.Network.Buffer.Zlaws.{stored, stored-IsZstd}
use polar_uv_robot.Network.Socket.{Socket}
use polar_uv_robot.Network.Session.{Session, set_socket, set_state}
use polar_uv_robot.Network.Session.Refusals.{serve_one-disconnected}
use polar_uv_robot.Network.Session.Serve.{serve_one}
use polar_uv_robot.Network.Session.Requests.{packed}
use polar_uv_robot.Settings.{PidMessage, Message, SettingsState, all_off, no_settings, new_settings}
use polar_uv_robot.Settings.Validation.{InRange, Accepted, settings_of}
use polar_uv_robot.Settings.Motion.{cycle_settings}
use polar_uv_robot.Commands.Pid.{new_pid}
use polar_uv_robot.Commands.Queue.{new_queue, add_commands}
use polar_uv_robot.Commands.Motors.{MotorsStruct, motors_bytes, send_motors_struct, mark}
use polar_uv_robot.Commands.Cycle.Rounds.{sent_for}
use polar_uv_robot.Commands.Service.{commands_of}
use polar_uv_robot.Robot.Start.{StartSettings, Spi, rov, file_texts, buf_size}
use polar_uv_robot.Robot.Start.File.{file_texts_lem}
use polar_uv_robot.Robot.{RobotState, Platform, new_sensors, put_sensors, put_queue, set_up}
use polar_uv_robot.Robot.Services.{robot_services, set_up-robot_services}
use polar_uv_robot.Robot.Reach.{
  inputs_of, drive, connected, served, sensed, driven, Reach, here, next, drive-Reach,
}
use polar_uv_robot.Robot.Watchdog.{no_step, driven_on, stepped, drive-Quiet}
use polar_uv_robot.Robot.Requests.{sends, drive-serve_one_commands, drive-serve_one_settings}

abbrev pid : PidMessage ℤ
pid = record { p = pos 3; i = pos 1; d = pos 2 }

-- One motor of the hand and one thruster.
abbrev message : Message ℤ
message = record {
  thrusters_coefficient = pos 1 ∷ pos 0 ∷ negsuc 0 ∷ pos 0 ∷ pos 100 ∷ pos 0 ∷ [];
  hand_coefficient = pos 1 ∷ [];
  maximum_motor_speed = 4000;
  motors_protocol = 2;
  pid = pid ∷ pid ∷ pid ∷ pid ∷ [];
  pid_enabled = all_off;
}

message-Accepted : Accepted message
unfolding InRange
message-Accepted = record {
  hand_fits = omega arith;
  whole_rows = refl;
  motors_fit = omega arith;
  thrusters_in_range = (refl, (refl, (refl, (refl, (refl, (refl, tt))))));
  hand_in_range = (refl, tt);
}

abbrev platform : Platform ℤ
platform = record {
  settings_protobuf = record { parse = λ bs. message; serialize = λ m. 1 ∷ [] };
  video_protobuf = record {
    parse = λ bs. record { action = 1; video_settings = none };
    serialize = λ names. [];
  };
  float_of = λ bs. pos (from_le bs);
  bytes_of = λ x. 0 ∷ 0 ∷ 0 ∷ 0 ∷ [];
  pad = 0 ∷ 0 ∷ 0 ∷ [];
  devices = [];
}

abbrev spi : Spi
spi = record { path = []; speed_hz = 1000000 }

abbrev start : StartSettings
start = record { mode = rov; sensors_path = []; motors_sender = some spi }

abbrev loaded : SettingsState ℤ
unfolding no_settings
loaded = record { file = []; settings = no_settings }

abbrev client : Bytes → Socket
client bs = record { is_open = true; input = bs; writes_left = 3; output = [] }

abbrev fresh : RobotState ℤ ℤ
fresh = record {
  settings = loaded;
  sensors = new_sensors platform;
  video = [];
  queue = new_queue;
  pids = new_pid;
}

abbrev session : Session (RobotState ℤ ℤ)
session = record { socket = client []; buffer = empty_buffer; services = []; state = fresh }

abbrev running : Session (RobotState ℤ ℤ)
running = (set_up platform [] start session).1

abbrev joined : Session (RobotState ℤ ℤ)
joined = set_socket (client (65 ∷ [])) running

abbrev asked : Session (RobotState ℤ ℤ)
asked = record joined {
  socket = record joined.socket { input = []; is_open = false };
  state = foldl (λ x e. e.1.connection_lost x) joined.state joined.services;
}

abbrev moved : Session (RobotState ℤ ℤ)
moved = set_state (drive (pos 1) asked.state).1 asked

reached : Reach stored running moved
reached =
    next
      (next (next here (connected (client (65 ∷ [])) refl))
        (served (serve_one-disconnected stored joined (omega arith))))
      (driven (pos 1) refl)

drive-Reach_example :
    (sent : MotorsStruct) × ((drive (pos 2) moved.state).0 ≡ some sent)
    × (length sent.hi_pwm ≡ 12)
    × (length sent.low_pwm ≡ 4)
    × (send_motors_struct 0 sent
        ≡ mark ++ (motors_bytes 0 sent ++ (mark ++ (mark ++ (motors_bytes 0 sent ++ mark)))))
unfolding loaded new_settings
drive-Reach_example =
    drive-Reach stored platform [] start spi loaded session moved (pos 2) 0 refl refl refl refl
      reached

-- A robot that runs, with a request on its socket.
abbrev with_request : ℕ → Bytes → Session (RobotState ℤ ℤ)
with_request e x = record {
  socket = client (request_bytes 1 e (length (packed stored x)) ++ (packed stored x ++ []));
  buffer = empty_buffer;
  services = robot_services platform;
  state = fresh;
}

abbrev ones : Bytes
ones = replicate 84 1

drive-serve_one_commands_example :
    let (out, t) = serve_one stored (with_request 3 ones) in
    (out ≡ returned tt)
    × ((drive (pos 1) t.state).0
        ≡ sent_for ℤ (inputs_of (pos 1) fresh) (commands_of platform.float_of ones) fresh.pids)
unfolding packed
drive-serve_one_commands_example =
    drive-serve_one_commands platform stored stored-IsZstd (with_request 3 ones) ones [] 2 (pos 1)
      refl refl (length-replicate {A = ℕ} capacity 0) (omega arith) (omega arith) (omega arith) refl
      refl

drive-serve_one_settings_example :
    let (out, t) = serve_one stored (with_request 0 (1 ∷ [])) in
    (out ≡ returned tt)
    × (t.state.settings.file ≡ 1 ∷ [])
    × ((drive (pos 1) t.state).0
        ≡ sends fresh
            (record (inputs_of (pos 1) fresh) { settings = cycle_settings (settings_of message) }))
unfolding packed
drive-serve_one_settings_example =
    drive-serve_one_settings platform stored stored-IsZstd (with_request 0 (1 ∷ [])) (1 ∷ []) [] 2
      (pos 1) refl refl (length-replicate {A = ℕ} capacity 0) (omega arith) (omega arith)
      (omega arith) refl message-Accepted (omega arith)

file_texts_lem_example :
    (3 < buf_size → file_texts 4 (utf8 "{ }") ≡ some (utf8 "{ }" ∷ []))
    × (buf_size ≤ 3 → file_texts 4 (utf8 "{ }") ≡ none)
unfolding utf8
file_texts_lem_example =
    file_texts_lem (utf8 "{ }") (λ h. omega arith, (λ h. omega arith, (λ h. omega arith, tt)))

-- Commands have come in, the sensors change, and a round is driven.
abbrev commanded : Session (RobotState ℤ ℤ)
commanded =
    set_state (put_queue (add_commands (commands_of platform.float_of ones) new_queue) fresh)
      running

abbrev measured : Session (RobotState ℤ ℤ)
measured = set_state (put_sensors (new_sensors platform) commanded.state) commanded

abbrev later : Session (RobotState ℤ ℤ)
later = set_state (drive (pos 1) measured.state).1 measured

drive-Quiet_example :
    (drive (pos 1) later.state).0
    ≡ sent_for ℤ
        (inputs_of (pos 1) later.state)
        (commands_of platform.float_of ones)
        later.state.pids
drive-Quiet_example =
    drive-Quiet stored commanded (commands_of platform.float_of ones) new_queue 1 later (pos 1) refl
      (driven_on (pos 1) (stepped no_step (sensed (new_sensors platform) refl) refl) refl)
