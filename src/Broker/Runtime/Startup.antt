-- ===== src/Broker/Runtime/Startup.antt =====
-- From the command line to the loop, `run` in crates/agent-seat-activity-broker/src/main.rs up to the
-- loop. What the kernel, evdev and the service manager give is in the record `World`; the text of an
-- error is without the system's part. The waits before the first frame end only by what `World` says.
pub mod Arguments
pub mod Eligibility
pub mod Initial
pub mod Opens
pub mod Untouched
pub mod Enrolled
pub mod Evidence
pub mod Ready
use agent_seat_proto.Prelude.{
  ℕ, zero, suc, ◌+◌, ◌-◌, ◌%◌, ◌^◌, Bool, true, false, not, ◌&&◌, ◌||◌, ◌==◌, ltb, if◌then◌else◌,
  String, Option, none, some, is_some, List, [], ◌∷◌, ◌++◌, length, is_empty, take, Result, ok, err,
  ◌>>=◌, ◌>>◌, check, map_err,
}
use agent_seat_proto.Prelude.Text.{same, chars}
use agent_seat_proto.Prelude.Utf8.{is_utf8}
use agent_seat_proto.Prelude.Bytes.{from_le_bytes}
use agent_seat_proto.Prelude.Decimal.{parse_u32}
use agent_seat_proto.Devices.InputSet.{event_name}
use agent_seat_proto.Devices.Inherited.{
  InheritedFile, InheritedFileError, Activation, receive_inherited_files,
}
use agent_seat_proto.Devices.DeviceSet.{
  DeviceSetError, EnrolledDevice, DeviceCapabilities, CapabilityKind, absolute, event,
  force_feedback, keys, leds, misc, relative, sound, switch, property, max_device_set_bytes,
  max_event_descriptors,
}
use agent_seat_proto.Devices.DeviceSet.Record.{decode_device_set}
use agent_seat_proto.Devices.DeviceSet.Bitmaps.{matches}
use agent_seat_proto.Broker.Protocol.{
  BrokerState, StopReason, arming, ready, stopped, unavailable, activity, nothing, event_loss,
  evidence_lost, internal, eligibility_changed, EligibilityState, eligible, ineligible,
  ProtocolError, read_eligibility, eligibility_frame_bytes,
}
use agent_seat_proto.Broker.Runtime.{
  Update, EventSummary, Revents, Broker, is_lost, classify_input_event, initial_broker,
}

-- Why `run` does not reach its loop: an error, the help text, or a wait that has not ended.
pub data Stop : Type 0 where
  failed : String → Stop
  help : Stop
  waiting : Stop

-- `parse_u32` of an argument.
unfoldable pub parse_argument : List ℕ → Result Stop ℕ
parse_argument value =
    if not (is_utf8 value) then err (failed "--uid requires a value") else elim (parse_u32 value) [
      | none ↦ err (failed "--uid requires an unsigned integer")
      | some uid ↦ ok uid
    ]

abbrev pub required : Option ℕ → Result Stop ℕ
required none = err (failed "--uid is required")
required (some uid) = ok uid

-- An argument that is not `--uid`.
unfoldable pub other_argument : List ℕ → Stop
other_argument argument =
    if not (is_utf8 argument)
    then failed "arguments must be UTF-8"
    else if same argument (chars "--help")
    then help
    else failed "unknown argument"

-- `Arguments::parse`
unfoldable pub parse_from : Option ℕ → List (List ℕ) → Result Stop ℕ
parse_from uid [] = required uid
parse_from uid (argument ∷ []) =
    if not (same argument (chars "--uid"))
    then err (other_argument argument)
    else if is_some uid
    then err (failed "--uid may be specified once")
    else err (failed "--uid requires a value")
parse_from uid (argument ∷ value ∷ rest) =
    let taken = parse_argument value >>= λ parsed. parse_from (some parsed) rest in
    if not (same argument (chars "--uid"))
    then err (other_argument argument)
    else if is_some uid
    then err (failed "--uid may be specified once")
    else taken

unfoldable pub parse : List (List ℕ) → Result Stop ℕ
parse arguments = parse_from none arguments

-- An evdev device as it is opened: its codes of each kind, whether it has keys, the pressed ones, and
-- what the first poll and the first read give.
pub record Device : Type 0 where
  pub id : ℕ
  pub supported : CapabilityKind → List ℕ
  pub has_keys : Bool
  pub key_state : Result String (List ℕ)
  pub revents : Revents
  pub fetched : Result String (List EventSummary)

-- The enrolled device set as a file.
pub record SetFile : Type 0 where
  pub is_file : Bool
  pub links : ℕ
  pub owner : ℕ
  pub mode : ℕ
  pub size : ℕ
  pub contents : Result String (List ℕ)

-- One turn of the wait for the first eligibility frame.
pub data Attempt : Type 0 where
  closed : Attempt
  chunk : List ℕ → Attempt
  interrupted : Attempt
  would_block : Bool → Result String Revents → Attempt
  broken : String → Attempt

pub record World : Type 0 where
  pub arguments : List (List ℕ)
  pub broker_uid : ℕ
  pub listener : Result String (Unit {0})
  pub activation : Activation
  pub set_file : ℕ → Result String SetFile
  pub device : ℕ → Result String Device
  pub eligibility : Result String (Unit {0})
  pub attempts : List Attempt
  pub initial_poll : Result String (Unit {0})
  pub random : List (Result String (List ℕ))
  pub now : ℕ

abbrev pub or_failed : Result String (Unit {0}) → Result Stop (Unit {0})
or_failed r = map_err failed r

-- `metadata.permissions().mode() & 0o777 != 0o600` is the last nine bits.
unfoldable pub is_private : SetFile → ℕ → Bool
is_private file owner_uid =
    file.is_file
    && (file.links == 1
        && (file.owner == owner_uid
            && (file.mode % 512 == 384 && not (ltb max_device_set_bytes file.size))))

unfoldable pub read_enrolled_device_set :
    Result String SetFile → ℕ → Result Stop (List EnrolledDevice)
read_enrolled_device_set opened owner_uid = map_err failed opened >>= λ file.
    if not (is_private file owner_uid)
    then err (failed "enrolled device set is not an exact private peer-owned file")
    else map_err failed file.contents >>= λ contents.
        let bytes = take (max_device_set_bytes + 1) contents in
        if ltb max_device_set_bytes (length bytes)
        then err (failed "enrolled device set exceeds its read bound")
        else map_err (λ e. failed "invalid enrolled device set") (decode_device_set bytes)

unfoldable pub matches_device_capabilities : Device → DeviceCapabilities → Bool
matches_device_capabilities device expected =
    matches expected event (device.supported event)
    && (matches expected keys (device.supported keys)
        && (matches expected relative (device.supported relative)
            && (matches expected absolute (device.supported absolute)
                && (matches expected misc (device.supported misc)
                    && (matches expected switch (device.supported switch)
                        && (matches expected leds (device.supported leds)
                            && (matches expected sound (device.supported sound)
                                && (matches expected force_feedback
                                      (device.supported force_feedback)
                                    && matches expected property (device.supported property)))))))))

-- The named descriptors, opened in order.
unfoldable pub open_devices :
    (ℕ → Result String Device) → ℕ → List InheritedFile → Result Stop (List Device)
open_devices open_device index [] = ok []
open_devices open_device index (file ∷ files) =
    let rest = map_err failed (open_device file.descriptor) >>= λ device.
    open_devices open_device (index + 1) files >>= λ devices. ok (device ∷ devices) in
    if not (same file.name (event_name index))
    then err (failed "inherited event descriptor has the wrong name")
    else rest

unfoldable pub match_devices : List Device → List EnrolledDevice → Result Stop (Unit {0})
match_devices [] enrolled = ok tt
match_devices (device ∷ devices) [] = ok tt
match_devices (device ∷ devices) (d ∷ enrolled) =
    let rest = match_devices devices enrolled in
    if not (matches_device_capabilities device d.capabilities)
    then err (failed "inherited event descriptor does not match enrollment")
    else rest

-- A poll before the frame is whole.
unfoldable pub after_poll : Revents → Result Stop (Unit {0})
after_poll events =
    if events.error || events.invalid
    then err (failed "initial eligibility evidence was lost")
    else if not (events.readable || events.hang_up)
    then err (failed "timed out waiting for initial eligibility evidence")
    else if events.hang_up && not events.readable
    then err (failed "eligibility channel closed during initial frame")
    else ok tt

abbrev pub decoded_frame : Result ProtocolError EligibilityState → Result Stop EligibilityState
decoded_frame (ok state) = ok state
decoded_frame (err e) = err (failed "cannot decode initial eligibility evidence")

-- `read_initial_eligibility` with the bytes of the frame so far.
unfoldable pub await_frame : List ℕ → List Attempt → Result Stop EligibilityState
await_frame frame [] =
    if ltb (length frame) eligibility_frame_bytes
    then err waiting
    else decoded_frame (read_eligibility frame)
await_frame frame (attempt ∷ rest) =
    if not (ltb (length frame) eligibility_frame_bytes)
    then decoded_frame (read_eligibility frame)
    else elim attempt [
      | closed ↦ err (failed "eligibility channel closed during initial frame")
      | chunk bytes ↦
          if is_empty bytes
          then err (failed "eligibility channel closed during initial frame")
          else await_frame (frame ++ take (eligibility_frame_bytes - length frame) bytes) rest
      | interrupted ↦ await_frame frame rest
      | would_block elapsed poll ↦
          if elapsed
          then err (failed "timed out waiting for initial eligibility evidence")
          else map_err failed poll >>= λ events. after_poll events >> await_frame frame rest
      | broken error ↦ err (failed error)
    ]

unfoldable pub read_initial_eligibility : List Attempt → Result Stop EligibilityState
read_initial_eligibility attempts = await_frame [] attempts
