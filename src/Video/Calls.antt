-- ===== src/Video/Calls.antt =====
-- What the calls of src/Lib/Videostream/Gstreamer.cpp leave in GStreamer, where a property has the
-- value that was set last.
use mathlib.Core.Option
use polar_uv_robot.Prelude.{
  ℕ, List, length, false, ◌≡◌, inl, inr, refl, Option, none, some, [], ◌∷◌, ◌++◌, Bytes, utf8, ◌==◌,
  ◌&&◌, if◌then◌else◌, Bool-cases, Option-cases, arith,
}
use polar_uv_robot.Network.Exceptions.{Exception, invalid_operation, transfer_error}
use polar_uv_robot.Network.Exec.{Outcome, returned, thrown}
use polar_uv_robot.Network.Buffer.{view_of}
use polar_uv_robot.Network.Service.{do_action, write_data, base_service, not_empty}
use polar_uv_robot.Network.Packet.{w, Response, response, no_content}
use polar_uv_robot.Video.{
  Device, video_service, VideoSettings, VideoMessage, VideoProtobuf, Element, src, h264parse, rtp,
  gdp, sink, group, Property, port, host, device, do_timestamp, brightness, contrast, hue,
  saturation, Value, number, State, null, playing, object_set, link_many, set_state, Gstreamer,
  start, stop, write,
}

abbrev element_number : Element → ℕ
element_number src = 0
element_number h264parse = 1
element_number rtp = 2
element_number gdp = 3
element_number sink = 4
element_number group = 5

abbrev property_number : Property → ℕ
property_number port = 0
property_number host = 1
property_number device = 2
property_number do_timestamp = 3
property_number brightness = 4
property_number contrast = 5
property_number hue = 6
property_number saturation = 7

-- The value of a property after more calls.
unfoldable pub property : Element → Property → Option Value → Gstreamer → Option Value
property e p before [] = before
property e p before (object_set e' p' v ∷ g) =
    property e p
      (if (element_number e == element_number e') && (property_number p == property_number p')
        then some v
        else before)
      g
property e p before (_ ∷ g) = property e p before g

-- The state of the pipeline after more calls.
unfoldable pub pipeline_state : State → Gstreamer → State
pipeline_state before [] = before
pipeline_state before (set_state group x ∷ g) = pipeline_state x g
pipeline_state before (_ ∷ g) = pipeline_state before g

property-append :
    (e : Element) (p : Property) (g more : Gstreamer) (before : Option Value)
    → property e p before (g ++ more) ≡ property e p (property e p before g) more
unfolding property
property-append e p [] more before = refl
property-append e p (object_set e' p' v ∷ g) more before = property-append e p g more _
property-append e p (link_many es ∷ g) more before = property-append e p g more before
property-append e p (set_state e' x ∷ g) more before = property-append e p g more before

pipeline_state-append :
    (before : State) (g more : Gstreamer)
    → pipeline_state before (g ++ more) ≡ pipeline_state (pipeline_state before g) more
unfolding pipeline_state
pipeline_state-append before [] more = refl
pipeline_state-append before (object_set e' p' v ∷ g) more = pipeline_state-append before g more
pipeline_state-append before (link_many es ∷ g) more = pipeline_state-append before g more
pipeline_state-append before (set_state src x ∷ g) more = pipeline_state-append before g more
pipeline_state-append before (set_state h264parse x ∷ g) more = pipeline_state-append before g more
pipeline_state-append before (set_state rtp x ∷ g) more = pipeline_state-append before g more
pipeline_state-append before (set_state gdp x ∷ g) more = pipeline_state-append before g more
pipeline_state-append before (set_state sink x ∷ g) more = pipeline_state-append before g more
pipeline_state-append before (set_state group x ∷ g) more = pipeline_state-append x g more

-- The property of the camera after all calls.
abbrev pub camera : Property → Gstreamer → Option Value
camera p = property src p none

-- Every start, whatever was called before, leaves the camera with the brightness of its settings, but
-- with their saturation as its contrast; the hue and the saturation of the camera stay as they were.
pub camera-start :
    (s : VideoSettings) (g : Gstreamer)
    → (camera brightness (start s g) ≡ some (number s.brightness))
      × (camera contrast (start s g) ≡ some (number s.saturation))
      × (camera hue (start s g) ≡ camera hue g)
      × (camera saturation (start s g) ≡ camera saturation g)
unfolding start property
camera-start s g =
    let at : (p : Property) (more : Gstreamer)
        → camera p (g ++ more) ≡ property src p (camera p g) more =
      λ p more. property-append src p g more none in
    (at brightness _, at contrast _, at hue _, at saturation _)

-- The state that a message asks for; none if it is not valid.
unfoldable pub asked : VideoMessage → Option State
asked m =
    if m.action == 1
    then some null
    else if m.action == 0
    then Option.map (λ _. playing) m.video_settings
    else none

-- The answer to a write request, and the pipeline after it: no content and the state that was asked
-- for, or, after an exception, no call at all.
abbrev pub Answer : ℕ → Option State → State → Gstreamer → Outcome Response × Gstreamer → Type 0
Answer id (some x) before g (out, g') =
    (out ≡ returned (response (utf8 "") no_content id)) × (pipeline_state before g' ≡ x)
Answer id none before g (out, g') = ((e : Exception) × (out ≡ thrown e)) × (g' ≡ g)

write-answered :
    (pb : VideoProtobuf) (devices : List Device) (id : ℕ) (b : ℕ) (bs : Bytes) (before : State)
    (g : Gstreamer)
    → Answer id
        (asked (pb.parse (b ∷ bs)))
        before
        g
        (do_action (video_service pb devices id) w (view_of (b ∷ bs)) g)
unfolding do_action write_data video_service base_service not_empty write start stop pipeline_state
    asked
write-answered pb devices id b bs before g =
    let m = pb.parse (b ∷ bs) in
    let after : (more : Gstreamer)
        → pipeline_state before (g ++ more) ≡ pipeline_state (pipeline_state before g) more =
      λ more. pipeline_state-append before g more in
    let some_data : (length (b ∷ bs) == 0) ≡ false = grind arith in
    elim (Bool-cases (m.action == 0)) [
      | inl e ↦
          let zero_action : m.action ≡ 0 = grind arith in
          elim (Option-cases m.video_settings) [
            | inl n ↦
                rw (some_data, zero_action, n)
                  ((invalid_operation (utf8 "no settings"), refl), refl)
            | inr n ↦ rw (some_data, zero_action, n.1) (refl, after _)
          ]
      | inr e ↦ elim (Bool-cases (m.action == 1)) [
        | inl k ↦
            let one_action : m.action ≡ 1 = grind arith in
            rw (some_data, one_action) (refl, after _)
        | inr k ↦
            rw (some_data, e, k) ((invalid_operation (utf8 "settings is invalid"), refl), refl)
      ]
    ]

-- The state that the data of a request ask for; none if there are no data.
abbrev pub asked_in : VideoProtobuf → Bytes → Option State
asked_in pb [] = none
asked_in pb bs = asked (pb.parse bs)

-- Every write request to the service of the video is answered without content and leaves the pipeline in
-- the state that its message asks for, playing for START with settings and null for STOP, or throws and
-- calls nothing, which it does also without data; and the loss of the connection, as the service takes
-- it, leaves the pipeline in the state null.
pub pipeline_state-do_action :
    (pb : VideoProtobuf) (devices : List Device) (id : ℕ) (bs : Bytes) (before : State)
    (g : Gstreamer)
    → (let svc = video_service pb devices id in
        Answer id (asked_in pb bs) before g (do_action svc w (view_of bs) g)
        × (pipeline_state before (svc.connection_lost g) ≡ null))
unfolding do_action write_data video_service base_service not_empty stop pipeline_state
pipeline_state-do_action pb devices id [] before g =
    (((transfer_error (utf8 "Data is empty"), refl), refl), pipeline_state-append before g _)
pipeline_state-do_action pb devices id (b ∷ bs) before g =
    (write-answered pb devices id b bs before g, pipeline_state-append before g _)
