-- ===== src/Tests/Runtime.antt =====
-- The broker's process at one start and a few rounds.
use agent_seat_proto.Prelude.{
  ℕ, ◌≡◌, ◌↔◌, refl, arith, true, false, none, some, List, [], ◌∷◌, ◌++◌, take, ok, All, any, leb,
}
use agent_seat_proto.Prelude.Text.{chars}
use agent_seat_proto.Broker.Protocol.{eligible, eligibility_frame, status_request, encode}
use agent_seat_proto.Broker.Runtime.{
  Round, Broker, Revents, Reading, Stream, would_block, run_rounds, round, initial_broker,
}
use agent_seat_proto.Broker.Runtime.Startup.{Device, World, chunk}
use agent_seat_proto.Broker.Runtime.Startup.Initial.{Started}
use agent_seat_proto.Broker.Runtime.Startup.{
  parse_argument, other_argument, parse_from, parse, is_private, read_enrolled_device_set,
  matches_device_capabilities, open_devices, match_devices, after_poll, await_frame,
  read_initial_eligibility,
}
use agent_seat_proto.Broker.Runtime.Startup.Initial.{
  held_keys, scan_queue, scan_queues, initial_device_update, fill_random, random_instance, arm,
  open_all, start,
}
use agent_seat_proto.Devices.Inherited.{
  validate_names, checked_add, adopt, receive_named, receive_inherited_files,
}
use agent_seat_proto.Devices.InputSet.{event_name, is_named, decode_lines}
use agent_seat_proto.Devices.DeviceSet.{
  validate_value, validate_some, new_identity, has_double_space, validate_capability_value,
  new_capabilities, validate_sysfs_path, position, check_classes, validate_classes, new_device,
}
use agent_seat_proto.Devices.DeviceSet.Record.{
  optional, parse_optional, fields_of, device_line, push_devices, encode_device_set,
  canonical_event_number, strip_return, lines, decode_fields, decode_devices, if_canonical,
  decode_body, decode_device_set,
}
use agent_seat_proto.Devices.DeviceSet.Bitmaps.{
  scan_hex, parse_hex, trailing_zeros, word_codes, words_codes, insert, sort, bitmap_codes, matches,
}
use agent_seat_proto.Prelude.Utf8.{lead, utf8_from, is_utf8}
use agent_seat_proto.Prelude.Decimal.{emit, to_string, scan, parse_below, parse_u32, parse_usize}
use agent_seat_proto.Prelude.Split.{split, split_terminator, join, ends_with, strip_prefix}
use agent_seat_proto.Prelude.Paths.{pieces, components, starts_with, file_name}
use agent_seat_proto.Broker.Protocol.{read_eligibility, decode_eligibility, encode_eligibility}
use agent_seat_proto.Prelude.Text.{same}
use agent_seat_proto.Prelude.Bytes.{from_be_bytes, from_le_bytes, to_be_bytes, to_le_bytes, byte_at}
use agent_seat_proto.Broker.Protocol.{
  arming, ready, stopped, nothing, activity, valid_state, read_status_response, read_status_request,
}
use agent_seat_proto.Broker.Protocol.Frames.{Valid, read_status_response-encode}
use agent_seat_proto.Prelude.Bytes.{IsByte}
use agent_seat_proto.Broker.Runtime.{
  synchronization, syn_report, Accepted, connected, Served, Turn, is_live, attend, observe,
  apply_update, become_ready, terminal_update, eligibility_update, scan_devices, device_update,
  first_update, classify_input_event, accept, accept_provider, answer, respond, initial_update,
}
use agent_seat_proto.Broker.Runtime.Invariant.{Inv, begin-Inv}
use agent_seat_proto.Broker.Runtime.Quiet.{Quiet, run_rounds-live_iff, run_rounds-final}
use agent_seat_proto.Broker.Runtime.Arming.{run_rounds-ready_iff}
use agent_seat_proto.Broker.Runtime.Total.{run_rounds-total}
use agent_seat_proto.Broker.Runtime.Startup.{Attempt, interrupted}
use agent_seat_proto.Broker.Runtime.Startup.Arguments.{parse_iff}
use agent_seat_proto.Broker.Runtime.Startup.Eligibility.{
  delivered, read_initial_eligibility-delivered, read_initial_eligibility_sound,
}
use agent_seat_proto.Broker.Runtime.Startup.Opens.{AllRandom}
use agent_seat_proto.Broker.Runtime.Startup.Untouched.{Untouched, initial_device_update-Untouched}
use agent_seat_proto.Broker.Runtime.Startup.Evidence.{Opened, start-Opened}
use agent_seat_proto.Broker.Runtime.Startup.Ready.{
  Ready, watched, run_rounds-start-Inv, ready_answer-Ready,
}

abbrev idle : Revents
idle = record { readable = false; error = false; hang_up = false; invalid = false }

abbrev record_text : List ℕ
record_text =
    chars "agent-seat-device-set\t1\n"
    ++ chars "event2\t/sys/devices/e/event2\tkey\tp\t-\t-\t-\t-\t-\t0\t0\t0\t0\t0\t0\t0\t0\t0\t0\n"

abbrev keyboard : Device
keyboard = record {
  id = 7;
  supported = λ kind. [];
  has_keys = true;
  key_state = ok [];
  revents = idle;
  fetched = ok [];
}

abbrev world : World
world = record {
  arguments = chars "--uid" ∷ chars "1000" ∷ [];
  broker_uid = 990;
  listener = ok tt;
  activation = record {
    listen_fds = some (chars "2");
    listen_fdnames = some (chars "listener:enrolled-device-set:event0");
    received = some (3 ∷ 4 ∷ []);
    confine = λ fd. true;
  };
  set_file = λ fd. ok (record {
    is_file = true;
    links = 1;
    owner = 0;
    mode = 33152;
    size = 100;
    contents = ok record_text;
  });
  device = λ fd. ok keyboard;
  eligibility = ok tt;
  attempts = chunk (eligibility_frame eligible) ∷ [];
  initial_poll = ok tt;
  random = ok (1 ∷ 2 ∷ 3 ∷ 4 ∷ 5 ∷ 6 ∷ 7 ∷ 8 ∷ []) ∷ [];
  now = 1_000;
}

abbrev started : Started
started = record {
  uid = 1000;
  devices = keyboard ∷ [];
  broker = initial_broker 578437695752307201 (7 ∷ []) 1_000 true none;
}

world_starts : start world ≡ ok started
unfolding parse_argument other_argument parse_from parse is_private read_enrolled_device_set
    matches_device_capabilities open_devices match_devices after_poll await_frame
    read_initial_eligibility held_keys scan_queue scan_queues initial_device_update fill_random
    random_instance arm open_all start validate_names checked_add adopt receive_named
    receive_inherited_files event_name is_named decode_lines validate_value validate_some
    new_identity has_double_space validate_capability_value new_capabilities validate_sysfs_path
    position check_classes validate_classes new_device optional parse_optional fields_of device_line
    push_devices encode_device_set canonical_event_number strip_return lines decode_fields
    decode_devices if_canonical decode_body decode_device_set scan_hex parse_hex trailing_zeros
    word_codes words_codes insert sort bitmap_codes matches lead utf8_from is_utf8 emit to_string
    scan parse_below parse_u32 parse_usize split split_terminator join ends_with strip_prefix pieces
    components starts_with file_name read_eligibility decode_eligibility encode_eligibility
    eligibility_frame same from_be_bytes from_le_bytes to_be_bytes to_le_bytes byte_at
world_starts = refl

abbrev readable : Revents
readable = record { readable = true; error = false; hang_up = false; invalid = false }

abbrev quiet_reading : Reading
quiet_reading = record { revents = readable; fetched = some (synchronization syn_report ∷ []) }

abbrev round_at : ℕ → Revents → Accepted → Revents → Round
round_at now listener_events accepted provider_events = record {
  polled = ok tt;
  eligibility_events = idle;
  eligibility_bytes = [];
  readings = quiet_reading ∷ [];
  now = now;
  listener_events = listener_events;
  accepted = accepted;
  provider_events = provider_events;
  request = status_request;
  written = true;
  flushed = true;
}

abbrev provider : Stream
provider = record { peer_uid = 1000 }

-- The provider connects, and later the quiet interval ends.
abbrev before : List Round
before =
    round_at 2_000 readable (connected provider (ok tt)) idle
    ∷ round_at 250_002_000 idle would_block idle
    ∷ []

abbrev ready_broker : Broker
ready_broker = record {
  status = record { instance_id = 578437695752307201; epoch = 1; state = ready; reason = nothing };
  devices = 7 ∷ [];
  eligibility = true;
  arm_deadline = none;
  provider = some provider;
}

abbrev served : Served
served = record { broker = ready_broker; frames = none ∷ none ∷ [] }

abbrev asked : Round
asked = round_at 250_003_000 idle would_block readable

abbrev answered : Turn
answered = record { broker = ready_broker; frame = some (encode ready_broker.status) }

rounds_run : run_rounds 1000 started.broker before ≡ ok served
unfolding run_rounds round attend observe apply_update become_ready terminal_update
    eligibility_update scan_devices device_update first_update classify_input_event accept
    accept_provider answer respond read_status_request status_request initial_broker initial_update
    same to_be_bytes to_le_bytes from_be_bytes from_le_bytes byte_at
rounds_run = refl

asked_answered : round 1000 ready_broker asked ≡ ok answered
unfolding run_rounds round attend observe apply_update become_ready terminal_update
    eligibility_update scan_devices device_update first_update classify_input_event accept
    accept_provider answer respond read_status_request status_request initial_broker initial_update
    same to_be_bytes to_le_bytes from_be_bytes from_le_bytes byte_at
asked_answered = refl

random_bytes : AllRandom world.random
random_bytes = ground arith

ready-Valid : Valid ready_broker.status
unfolding valid_state
ready-Valid = record {
  pair = refl;
  instance_nonzero = omega arith;
  instance_bound = omega arith;
  epoch_nonzero = omega arith;
  epoch_bound = omega arith;
}

answer_read : read_status_response (encode ready_broker.status ++ []) ≡ ok ready_broker.status
answer_read = read_status_response-encode ready_broker.status [] ready-Valid

started-Inv : Inv 578437695752307201 (7 ∷ []) started.broker
unfolding initial_broker initial_update valid_state
started-Inv =
    begin-Inv 578437695752307201 (7 ∷ []) 1_000 arming nothing (omega arith) (omega arith) refl

ready_answer-Ready_example : Ready world started before asked
ready_answer-Ready_example =
    ready_answer-Ready world started before served asked answered (encode ready_broker.status) []
      ready_broker.status random_bytes world_starts rounds_run asked_answered refl answer_read refl

run_rounds-start-Inv_example :
    (i : ℕ) × (random_instance world.random ≡ ok i) × Inv i (watched started) served.broker
run_rounds-start-Inv_example =
    run_rounds-start-Inv world started before served random_bytes world_starts rounds_run

start-Opened_example : Opened world started
start-Opened_example = start-Opened world started world_starts

deadline_set : started.broker.arm_deadline ≡ some 250_001_000
unfolding initial_broker initial_update
deadline_set = refl

run_rounds-ready_iff_example :
    (served.broker.status.state ≡ ready)
    ↔ (All (Quiet (7 ∷ [])) before × (any (λ r. leb 250_001_000 r.now) before ≡ true))
run_rounds-ready_iff_example =
    run_rounds-ready_iff 578437695752307201 (7 ∷ []) 1000 started.broker 250_001_000 before served
      started-Inv deadline_set rounds_run

run_rounds-live_iff_example :
    (is_live served.broker.status.state ≡ true)
    ↔ ((is_live started.broker.status.state ≡ true) × All (Quiet (7 ∷ [])) before)
run_rounds-live_iff_example =
    run_rounds-live_iff 578437695752307201 (7 ∷ []) 1000 started.broker before served started-Inv
      rounds_run

run_rounds-total_example : (s : Served) × (run_rounds 1000 started.broker before ≡ ok s)
run_rounds-total_example = run_rounds-total 1000 started.broker before (
  record { polls = refl; listening = refl; accepts = refl },
  (record { polls = refl; listening = refl; accepts = tt }, tt),
)

-- A key is pressed, and nothing is learned afterwards.
abbrev stopped_broker : Broker
stopped_broker = record {
  status = record {
    instance_id = 578437695752307201;
    epoch = 2;
    state = stopped;
    reason = activity;
  };
  devices = [];
  eligibility = false;
  arm_deadline = none;
  provider = some provider;
}

stopped-Inv : Inv 578437695752307201 (7 ∷ []) stopped_broker
unfolding valid_state
stopped-Inv = record {
  valid = record {
    pair = refl;
    instance_nonzero = omega arith;
    instance_bound = omega arith;
    epoch_nonzero = omega arith;
    epoch_bound = omega arith;
  };
  same_instance = refl;
  held = refl;
  watched = refl;
  armed = refl;
  first_epoch = λ on. absurd (cc);
  few_epochs = omega arith;
}

abbrev stopped_served : Served
stopped_served = record { broker = stopped_broker; frames = none ∷ none ∷ [] }

rounds_stopped : run_rounds 1000 stopped_broker before ≡ ok stopped_served
unfolding run_rounds round attend observe apply_update become_ready terminal_update
    eligibility_update scan_devices device_update first_update classify_input_event accept
    accept_provider answer respond read_status_request status_request initial_broker initial_update
    same to_be_bytes to_le_bytes from_be_bytes from_le_bytes byte_at
rounds_stopped = refl

run_rounds-final_example : stopped_served.broker.status ≡ stopped_broker.status
run_rounds-final_example =
    run_rounds-final 578437695752307201 (7 ∷ []) 1000 stopped_broker before stopped_served
      stopped-Inv rounds_stopped refl

abbrev two_pieces : List Attempt
two_pieces = chunk (chars "ASE") ∷ interrupted ∷ chunk (chars "L" ++ 0 ∷ 1 ∷ 1 ∷ 0 ∷ []) ∷ []

keyboard_free : initial_device_update (keyboard ∷ []) (ok tt) ≡ ok none
unfolding initial_device_update held_keys scan_queues
keyboard_free = refl

parse_iff_example : (parse world.arguments ≡ ok 1000) ↔ (
    (value : List ℕ) × (world.arguments ≡ chars "--uid" ∷ value ∷ [])
    × (is_utf8 value ≡ true)
    × (parse_u32 value ≡ some 1000))
parse_iff_example = parse_iff world.arguments 1000

pieces_sent : delivered two_pieces ≡ eligibility_frame eligible
unfolding eligibility_frame encode_eligibility to_be_bytes to_le_bytes
pieces_sent = refl

read_initial_eligibility-delivered_example : read_initial_eligibility two_pieces ≡ ok eligible
read_initial_eligibility-delivered_example =
    read_initial_eligibility-delivered two_pieces eligible (refl, (tt, (refl, tt))) pieces_sent

pieces_bytes : All IsByte (delivered two_pieces)
pieces_bytes = ground arith

pieces_read : read_initial_eligibility two_pieces ≡ ok eligible
pieces_read =
    read_initial_eligibility-delivered two_pieces eligible (refl, (tt, (refl, tt))) pieces_sent

read_initial_eligibility_sound_example : take 8 (delivered two_pieces) ≡ eligibility_frame eligible
read_initial_eligibility_sound_example =
    read_initial_eligibility_sound two_pieces eligible pieces_bytes pieces_read

initial_device_update-Untouched_example : All Untouched (keyboard ∷ [])
initial_device_update-Untouched_example =
    initial_device_update-Untouched (keyboard ∷ []) (ok tt) keyboard_free
