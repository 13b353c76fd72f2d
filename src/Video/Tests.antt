-- ===== src/Video/Tests.antt =====
-- Tests of the stream on a request in two bytes: the action, and whether there are settings.
use polar_uv_robot.Prelude.{◌≡◌, refl, none, some, [], ◌∷◌, ◌==◌, if◌then◌else◌, utf8, get_or}
use polar_uv_robot.Prelude.Int.{pos}
use polar_uv_robot.Network.Packet.{w}
use polar_uv_robot.Network.Service.{do_action}
use polar_uv_robot.Network.Buffer.{view_of}
use polar_uv_robot.Video.{
  VideoSettings, VideoProtobuf, Device, find_devices, start, video_service, number, playing, null,
  brightness, contrast, hue, saturation,
}
use polar_uv_robot.Video.Calls.{
  camera, pipeline_state, asked, Answer, camera-start, pipeline_state-do_action,
}

abbrev front : VideoSettings
unfolding utf8
front = record {
  ip = utf8 "10.0.0.1";
  device_name = utf8 "/dev/video0";
  framerate_numerator = pos 1;
  framerate_denumenator = pos 30;
  brightness = pos 50;
  contrast = pos 60;
  hue = pos 70;
  saturation = pos 80;
}

abbrev pb : VideoProtobuf
pb = record {
  parse = λ bs. record {
    action = get_or bs 0 0;
    video_settings = if get_or bs 1 0 == 1 then some front else none;
  };
  serialize = λ names. [];
}

abbrev h264 : Device
unfolding utf8
h264 = record { name = utf8 "video/x-h264"; path = utf8 "/dev/video0" }

abbrev raw : Device
unfolding utf8
raw = record { name = utf8 "video/x-raw"; path = utf8 "/dev/video1" }

only_h264 : find_devices (raw ∷ h264 ∷ []) [] ≡ utf8 "/dev/video0" ∷ []
unfolding find_devices raw h264 utf8
only_h264 = refl

camera-start_example :
    (camera brightness (start front []) ≡ some (number (pos 50)))
    × (camera contrast (start front []) ≡ some (number (pos 80)))
    × (camera hue (start front []) ≡ camera hue [])
    × (camera saturation (start front []) ≡ camera saturation [])
unfolding front
camera-start_example = camera-start front []

pipeline_state-do_action_example :
    let svc = video_service pb (raw ∷ h264 ∷ []) 2 in
    Answer 2 (some playing) null [] (do_action svc w (view_of (0 ∷ 1 ∷ [])) [])
    × (pipeline_state null (svc.connection_lost []) ≡ null)
unfolding asked
pipeline_state-do_action_example =
    pipeline_state-do_action pb (raw ∷ h264 ∷ []) 2 (0 ∷ 1 ∷ []) null []
