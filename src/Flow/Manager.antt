-- ===== src/Flow/Manager.antt =====
-- quic-go/internal/flowcontrol/flow_control_manager.go: the controllers of the streams and of the
-- connection. The map is an association list in the order in which Go iterates over it; the mutex
-- makes each call a single step.
pub mod Windows
use mpquic_sbd.Base.{
  ℕ, ◌+◌, ◌*◌, ◌/◌, Bool, true, false, not, List, [], ◌∷◌, ◌++◌, Option, none, some, ltb, ◌==◌,
  ◌||◌, ◌&&◌, if◌then◌else◌, Result, ok, err,
}
use mpquic_sbd.Flow.Controller.{
  ConnectionParameters, FlowController, Received, RoundTrips, WindowResult, new_flow_controller,
  add_bytes_sent, add_bytes_retrans, update_send_window, send_window_size, update_highest_received,
  increment_highest_received, add_bytes_read, maybe_update_window, ensure_minimum_window_increment,
  check_flow_control_violation, min_byte_count,
}

pub record Manager : Type 0 where
  pub streams : List (ℕ × FlowController)
  pub connection : FlowController

pub data FlowError : Type 0 where
  map_access stream_data_after_termination flow_control_received_too_much_data : FlowError

-- A call keeps what it has changed when it fails.
pub record Outcome : Type 0 where
  pub manager : Manager
  pub error : Option FlowError

unfoldable pub new_flow_control_manager : ConnectionParameters → Manager
new_flow_control_manager params = record {
  streams = [];
  connection = new_flow_controller 0 false params;
}

unfoldable pub get_flow_controller : ℕ → List (ℕ × FlowController) → Option FlowController
get_flow_controller id [] = none
get_flow_controller id ((key, c) ∷ rest) = if id == key then some c else get_flow_controller id rest

-- What a change through the pointer `f.streamFlowController[id]` does to the map.
unfoldable pub put : ℕ → FlowController → List (ℕ × FlowController) → List (ℕ × FlowController)
put id c [] = []
put id c ((key, old) ∷ rest) = if id == key then (key, c) ∷ rest else (key, old) ∷ put id c rest

unfoldable pub delete : ℕ → List (ℕ × FlowController) → List (ℕ × FlowController)
delete id [] = []
delete id ((key, c) ∷ rest) = if id == key then rest else (key, c) ∷ delete id rest

unfoldable pub new_stream : ConnectionParameters → Manager → ℕ → Bool → Manager
new_stream params m id contributes = elim (get_flow_controller id m.streams) [
  | none ↦ record m { streams = (id, new_flow_controller id contributes params) ∷ m.streams }
  | some _ ↦ m
]

unfoldable pub remove_stream : Manager → ℕ → Manager
remove_stream m id = record m { streams = delete id m.streams }

abbrev pub fails_with : Manager → FlowError → Outcome
fails_with m e = record { manager = m; error = some e }

abbrev pub succeeds : Manager → Outcome
succeeds m = record { manager = m; error = none }

-- The end that ResetStream and UpdateHighestReceived share: `c` has just been updated.
unfoldable pub account : Manager → ℕ → FlowController → ℕ → Outcome
account m id c increment =
    let updated = record m { streams = put id c m.streams } in
    if check_flow_control_violation c
    then fails_with updated flow_control_received_too_much_data
    else if c.contributes_to_connection
    then (let connection = increment_highest_received m.connection increment in
        let counted = record updated { connection = connection } in
        if check_flow_control_violation connection
        then fails_with counted flow_control_received_too_much_data
        else succeeds counted)
    else succeeds updated

unfoldable pub reset_stream : Manager → ℕ → ℕ → Outcome
reset_stream m id byte_offset = elim (get_flow_controller id m.streams) [
  | none ↦ fails_with m map_access
  | some c ↦
      let r = update_highest_received c byte_offset in
      if r.smaller_byte_offset
      then fails_with m stream_data_after_termination
      else account m id r.controller r.increment
]

-- The error of the controller is ignored, since stream frames may be reordered.
unfoldable pub update_highest : Manager → ℕ → ℕ → Outcome
update_highest m id byte_offset = elim (get_flow_controller id m.streams) [
  | none ↦ fails_with m map_access
  | some c ↦ let r = update_highest_received c byte_offset in account m id r.controller r.increment
]

-- Adds to a stream's controller, and to the connection's if the stream contributes to it.
abbrev pub on_both : (FlowController → FlowController) → Manager → ℕ → Outcome
on_both change m id = elim (get_flow_controller id m.streams) [
  | none ↦ fails_with m map_access
  | some c ↦ succeeds record {
    streams = put id (change c) m.streams;
    connection = if c.contributes_to_connection then change m.connection else m.connection;
  }
]

unfoldable pub manager_add_bytes_read : Manager → ℕ → ℕ → ℕ → Outcome
manager_add_bytes_read m id n now = on_both (λ c. add_bytes_read c n now) m id

unfoldable pub manager_add_bytes_sent : Manager → ℕ → ℕ → Outcome
manager_add_bytes_sent m id n = on_both (λ c. add_bytes_sent c n) m id

unfoldable pub manager_add_bytes_retrans : Manager → ℕ → ℕ → Outcome
manager_add_bytes_retrans m id n = on_both (λ c. add_bytes_retrans c n) m id

-- The fields of the Go struct `WindowUpdate`.
pub record WindowUpdate : Type 0 where
  pub stream : ℕ
  pub offset : ℕ

-- `protocol.ConnectionFlowControlMultiplier` is 1.5; the product is cut to a whole number.
abbrev pub connection_increment : ℕ → ℕ
connection_increment increment = increment * 3 / 2

pub record Updates : Type 0 where
  pub controllers : List (ℕ × FlowController)
  pub on_connection : FlowController
  pub windows : List WindowUpdate

abbrev pub raise_connection : Bool → FlowController → WindowResult → FlowController
raise_connection force connection r =
    if (force || r.necessary)
      && r.controller.contributes_to_connection
      && not (r.new_increment == 0)
    then ensure_minimum_window_increment connection (connection_increment r.new_increment)
    else connection

abbrev pub updates_for : Bool → ℕ → WindowResult → List WindowUpdate
updates_for force id r =
    if force || r.necessary then record { stream = id; offset = r.new_offset } ∷ [] else []

unfoldable pub stream_updates :
    RoundTrips → ℕ → Bool → List (ℕ × FlowController) → FlowController → Updates
stream_updates rtts now force [] connection = record {
  controllers = [];
  on_connection = connection;
  windows = [];
}
stream_updates rtts now force ((id, c) ∷ rest) connection =
    let r = maybe_update_window c rtts now in
    let later = stream_updates rtts now force rest (raise_connection force connection r) in
    record {
      controllers = (id, r.controller) ∷ later.controllers;
      on_connection = later.on_connection;
      windows = updates_for force id r ++ later.windows;
    }

unfoldable pub get_window_updates : RoundTrips → ℕ → Bool → Manager → Manager × List WindowUpdate
get_window_updates rtts now force m =
    let u = stream_updates rtts now force m.streams m.connection in
    let r = maybe_update_window u.on_connection rtts now in
    (
      record { streams = u.controllers; connection = r.controller },
      u.windows ++ updates_for force 0 r,
    )

unfoldable pub get_receive_window : Manager → ℕ → Result FlowError ℕ
get_receive_window m id =
    if id == 0 then ok m.connection.receive_window else elim (get_flow_controller id m.streams) [
      | none ↦ err map_access
      | some c ↦ ok c.receive_window
    ]

unfoldable pub manager_send_window_size : ConnectionParameters → Manager → ℕ → Result FlowError ℕ
manager_send_window_size params m id = elim (get_flow_controller id m.streams) [
  | none ↦ err map_access
  | some c ↦
      let size = send_window_size params c in
      ok (
        if c.contributes_to_connection
        then min_byte_count size (send_window_size params m.connection)
        else size)
]

unfoldable pub remaining_connection_window_size : ConnectionParameters → Manager → ℕ
remaining_connection_window_size params m = send_window_size params m.connection

unfoldable pub update_window : Manager → ℕ → ℕ → Manager × Result FlowError Bool
update_window m id offset =
    if id == 0
    then (let (connection, changed) = update_send_window m.connection offset in
        (record m { connection = connection }, ok changed))
    else elim (get_flow_controller id m.streams) [
      | none ↦ (m, err map_access)
      | some c ↦
          let (updated, changed) = update_send_window c offset in
          (record m { streams = put id updated m.streams }, ok changed)
    ]
