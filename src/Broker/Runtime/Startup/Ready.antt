-- ===== src/Broker/Runtime/Startup/Ready.antt =====
-- The broker of crates/agent-seat-activity-broker/src/main.rs from its start to an answer.
use agent_seat_proto.Prelude.{
  ℕ, ◌≡◌, refl, arith, Bool, true, false, Option, none, some, List, [], ◌++◌, map, ok, All,
}
use agent_seat_proto.Broker.Protocol.{
  BrokerStatus, ready, valid_state, EligibilityState, eligible, ineligible, read_status_response,
}
use agent_seat_proto.Broker.Runtime.{
  Update, Round, Turn, Served, is_live, initial_update, initial_broker, round, run_rounds,
}
use agent_seat_proto.Broker.Runtime.Invariant.{Inv, begin-Inv, AllTerminal, run_rounds-Inv}
use agent_seat_proto.Broker.Runtime.Quiet.{Quiet}
use agent_seat_proto.Broker.Runtime.Answers.{ready_answer-Quiet}
use agent_seat_proto.Broker.Runtime.Startup.{World, read_initial_eligibility}
use agent_seat_proto.Broker.Runtime.Startup.Initial.{random_instance, is_eligible, Started, start}
use agent_seat_proto.Broker.Runtime.Startup.Untouched.{Untouched, initial_device_update-Untouched}
use agent_seat_proto.Broker.Runtime.Startup.Evidence.{Opened, start-Opened}
use agent_seat_proto.Broker.Runtime.Startup.Opens.{
  initial_device_update-Terminal, fill_random-Word, AllRandom,
}

-- The devices that the broker polls.
abbrev pub watched : Started → List ℕ
watched s = map (λ d. d.id) s.devices

initial_update-Fits :
    (is_ok_to_arm : Bool) (update : Option Update)
    → AllTerminal update
    → (let p = initial_update is_ok_to_arm update in valid_state p.0 p.1) ≡ true
unfolding initial_update valid_state
initial_update-Fits false update h = refl
initial_update-Fits true (some (state, reason)) h = h.1
initial_update-Fits true none h = refl

-- The instance that the random source gave.
abbrev pub instance_of : {w : World} {s : Started} → Opened w s → ℕ
instance_of o = o.first_look.instance_id

pub start-Inv :
    (w : World) (s : Started) (opened : Opened w s)
    → AllRandom w.random
    → Inv (instance_of opened) (watched s) s.broker
unfolding random_instance initial_broker
start-Inv w s opened random =
    let l = opened.first_look in
    let (above, below) =
      fill_random-Word [] w.random l.instance_id tt (omega arith) random l.drawn in
    let fits =
      initial_update-Fits (is_eligible l.state) l.update
        (initial_device_update-Terminal s.devices w.initial_poll l.update l.looked) in
    let p = initial_update (is_eligible l.state) l.update in
    rw l.begun (begin-Inv l.instance_id (watched s) w.now p.0 p.1 above below fits)

-- Whatever the broker meets, from its start on and in every round, its status is a valid one of the
-- instance that it drew; it watches all its devices and the eligibility channel as long as it is
-- arming or ready, and nothing afterwards; and it has a deadline exactly while it is arming.
pub run_rounds-start-Inv :
    (w : World) (s : Started) (rs : List Round) (served : Served)
    → AllRandom w.random
    → start w ≡ ok s
    → run_rounds s.uid s.broker rs ≡ ok served
    → (i : ℕ) × (random_instance w.random ≡ ok i) × Inv i (watched s) served.broker
run_rounds-start-Inv w s rs served random started ran =
    let opened = start-Opened w s started in
    (
      instance_of opened,
      opened.first_look.drawn,
      run_rounds-Inv (instance_of opened) (watched s) s.uid s.broker rs served ran
          (start-Inv w s opened random),
    )

live_start :
    (i : ℕ) (devices : List ℕ) (now : ℕ) (state : EligibilityState) (update : Option Update)
    → AllTerminal update
    → is_live (initial_broker i devices now (is_eligible state) update).status.state ≡ true
    → (state ≡ eligible) × (update ≡ none)
unfolding initial_broker initial_update
live_start i devices now ineligible update fits live = absurd (cc)
live_start i devices now eligible none fits live = (refl, refl)
live_start i devices now eligible (some (state, reason)) fits live = absurd (cc (fits.0, live))

-- What stands behind an answer that says `ready`.
pub record Ready (w : World) (s : Started) (rounds : List Round) (last : Round) : Type 0 where
  pub opened : Opened w s
  pub session : read_initial_eligibility w.attempts ≡ ok eligible
  pub untouched : All Untouched s.devices
  pub quiet : All (Quiet (watched s)) rounds
  pub quiet_last : Quiet (watched s) last

-- If a provider reads in an answer that the broker is ready, then the broker began with the frame of
-- an eligible session, with every enrolled device there and untouched, and every round up to the one
-- that sent the answer was quiet.
pub ready_answer-Ready :
    (w : World) (s : Started) (before : List Round) (served : Served) (r : Round) (t : Turn)
    (frame rest : List ℕ) (status : BrokerStatus)
    → AllRandom w.random
    → start w ≡ ok s
    → run_rounds s.uid s.broker before ≡ ok served
    → round s.uid served.broker r ≡ ok t
    → t.frame ≡ some frame
    → read_status_response (frame ++ rest) ≡ ok status
    → status.state ≡ ready
    → Ready w s before r
ready_answer-Ready w s before served r t frame rest status random started ran done sent read is =
    let opened = start-Opened w s started in
    let l = opened.first_look in
    let (live, quiet, quiet_last) =
      ready_answer-Quiet l.instance_id (watched s) s.uid s.broker before served r t frame rest
        status (start-Inv w s opened random) ran done sent read is in
    let (state_is, update_is) =
      live_start l.instance_id (watched s) w.now l.state l.update
        (initial_device_update-Terminal s.devices w.initial_poll l.update l.looked)
        (rw l.begun at live) in
    record {
      opened = opened;
      session = rw state_is at l.frame;
      untouched =
          initial_device_update-Untouched s.devices w.initial_poll (rw update_is at l.looked);
      quiet = quiet;
      quiet_last = quiet_last;
    }
