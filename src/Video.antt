-- ===== src/Video.antt =====
-- src/Robot/Features/Video/Video.cpp and src/Lib/Videostream/Gstreamer.cpp: the service that starts and
-- stops the stream of a camera. GStreamer is a library: the state of the service is the sequence of
-- calls that GStreamer was given. The generated parser and serialiser are parameters.
pub mod Calls
mod Tests
use polar_uv_robot.Prelude.{
  ℕ, Bool, true, false, Option, none, some, List, [], ◌∷◌, ◌++◌, Bytes, utf8, ◌==◌, if◌then◌else◌,
  ◌&&◌,
}
use polar_uv_robot.Prelude.Int.{ℤ, pos}
use polar_uv_robot.Network.Exceptions.{invalid_operation}
use polar_uv_robot.Network.Exec.{Exec, pure, throw, crash}
use polar_uv_robot.Network.Buffer.{StringView}
use polar_uv_robot.Network.Service.{IService, base_service}

-- `VideoSettings`
pub record VideoSettings : Type 0 where
  pub ip : Bytes
  pub device_name : Bytes
  pub framerate_numerator : ℤ
  pub framerate_denumenator : ℤ
  pub brightness : ℤ
  pub contrast : ℤ
  pub hue : ℤ
  pub saturation : ℤ

-- `VideoMessage`; the action by its number.
pub record VideoMessage : Type 0 where
  pub action : ℕ
  pub video_settings : Option VideoSettings

-- The generated code: `ParseFromArray`, and `SerializeAsString` of the names of the devices.
pub record VideoProtobuf : Type 0 where
  pub parse : Bytes → VideoMessage
  pub serialize : List Bytes → Bytes

-- The elements of the pipeline, and their group.
pub data Element : Type 0 where
  src h264parse rtp gdp sink group : Element

-- The properties that the program sets.
pub data Property : Type 0 where
  port host device do_timestamp brightness contrast hue saturation : Property

pub data Value : Type 0 where
  number : ℤ → Value
  text : Bytes → Value

pub data State : Type 0 where
  null playing : State

-- A call of GStreamer: `g_object_set` of one property, `gst_element_link_many`, and
-- `gst_element_set_state`.
pub data Call : Type 0 where
  object_set : Element → Property → Value → Call
  link_many : List Element → Call
  set_state : Element → State → Call

-- The calls so far, the oldest first.
abbrev pub Gstreamer : Type 0
Gstreamer = List Call

unfoldable pub start : VideoSettings → Gstreamer → Gstreamer
start s g =
    g
    ++ (object_set sink port (number (pos 8000))
        ∷ object_set sink host (text s.ip)
        ∷ object_set src device (text s.device_name)
        ∷ object_set src do_timestamp (number (pos 0))
        ∷ object_set src Property.brightness (number s.brightness)
        ∷ object_set src Property.contrast (number s.contrast)
        ∷ object_set src Property.contrast (number s.hue)
        ∷ object_set src Property.contrast (number s.saturation)
        ∷ link_many (src ∷ h264parse ∷ rtp ∷ gdp ∷ sink ∷ [])
        ∷ set_state group playing
        ∷ [])

unfoldable pub stop : Gstreamer → Gstreamer
stop g = g ++ (set_state group null ∷ [])

-- A device of the provider: the name of its first structure of capabilities, and its path.
pub record Device : Type 0 where
  pub name : Bytes
  pub path : Bytes

-- `g_str_has_prefix`
unfoldable pub has_prefix : Bytes → Bytes → Bool
has_prefix s [] = true
has_prefix (c ∷ s) (p ∷ prefix) = (c == p) && has_prefix s prefix
has_prefix [] (p ∷ prefix) = false

-- `g_list_foreach` of `FindDevices`
unfoldable pub find_devices : List Device → List Bytes → List Bytes
unfolding has_prefix utf8
find_devices [] names = names
find_devices (d ∷ ds) names =
    find_devices ds
      (if has_prefix d.name (utf8 "video/x-h264") then names ++ (d.path ∷ []) else names)

module _ (pb : VideoProtobuf) where
  unfoldable pub scan_cameras : List Device → Bytes
  unfolding find_devices
  scan_cameras devices = pb.serialize (find_devices devices [])

  unfoldable pub write : StringView → Exec Gstreamer (Unit {0})
  unfolding start stop utf8
  write v g = elim v.bytes [
    | none ↦ crash g
    | some bs ↦
        let message = pb.parse bs in
        if message.action == 0
        then (elim message.video_settings [
          | none ↦ throw (invalid_operation (utf8 "no settings")) g
          | some settings ↦ pure tt (start settings g)
        ])
        else if message.action == 1
        then pure tt (stop g)
        else throw (invalid_operation (utf8 "settings is invalid")) g
  ]

  -- `Video`, with the devices that the provider finds.
  unfoldable pub video_service : List Device → ℕ → IService Gstreamer
  unfolding write scan_cameras stop base_service
  video_service devices id = record {
    service_id = id;
    read_validate = (base_service id).read_validate;
    write_validate = (base_service id).write_validate;
    write_read_validate = (base_service id).write_read_validate;
    read = pure (scan_cameras devices);
    write = write;
    write_read = (base_service id).write_read;
    connection_lost = stop;
  }
