-- ===== src/Examples/Flow.antt =====
-- Flow control at concrete values.
use mpquic_sbd.Base.{
  ℕ, ◌+◌, ◌-◌, ◌/◌, ◌≤◌, ◌≡◌, refl, [], ◌∷◌, none, some, ok, arith, ltb, max, if◌then◌else◌,
}
use mpquic_sbd.Flow.Controller.{
  ConnectionParameters, FlowController, RoundTrips, maybe_update_window, send_window_size,
  get_send_window, update_highest_received, increment_highest_received,
  check_flow_control_violation,
}
use mpquic_sbd.Flow.Controller.Windows.{IsValid, maybe_update_window_grows}
use mpquic_sbd.Flow.Manager.{
  Manager, get_flow_controller, account, reset_stream, update_highest, manager_send_window_size,
  manager_add_bytes_sent,
}
use mpquic_sbd.Flow.Manager.Windows.{
  contributed, update_highest_counts, reset_stream_counts, send_window_size_respected,
}

-- A stream or the connection that has read 900 of 1000 bytes.
abbrev controller : ℕ → FlowController
controller id = record {
  stream_id = id;
  contributes_to_connection = ltb 3 id;
  bytes_sent = 100;
  send_window = 500;
  bytes_retrans = 0;
  last_window_update_time = some 0;
  bytes_read = 900;
  highest_received = 950;
  receive_window = 1000;
  receive_window_increment = 400;
  max_receive_window_increment = 1000;
}

abbrev manager : Manager
manager = record { streams = (5, controller 5) ∷ []; connection = controller 0 }

abbrev params : ConnectionParameters
params = record {
  receive_connection_window = 1000;
  max_receive_connection_window = 1000;
  receive_stream_window = 1000;
  max_receive_stream_window = 1000;
  send_connection_window = 500;
  send_stream_window = 500;
}

abbrev rtts : RoundTrips
rtts = record { smoothed_rtt = 100; remote_rtts = [] }

controller-IsValid : IsValid (controller 5)
controller-IsValid = record {
  read_within = omega arith;
  window_fits = omega arith;
  increment_pos = omega arith;
  increment_within = omega arith;
  max_fits = omega arith;
}

maybe_update_window_grows_example :
    let r = maybe_update_window (controller 5) rtts 150 in
    ((controller 5).receive_window ≤ r.controller.receive_window)
    × (r.new_offset ≡ r.controller.receive_window)
    × (r.necessary ≡ ltb (controller 5).receive_window r.controller.receive_window)
    × ((controller 5).bytes_read + r.controller.receive_window_increment / 2
        ≤ r.controller.receive_window)
maybe_update_window_grows_example =
    maybe_update_window_grows (controller 5) rtts 150 controller-IsValid

finds_5 : get_flow_controller 5 manager.streams ≡ some (controller 5)
unfolding get_flow_controller
finds_5 = refl

accepts_980 : (update_highest manager 5 980).error ≡ none
unfolding update_highest get_flow_controller update_highest_received account
    increment_highest_received check_flow_control_violation
accepts_980 = refl

resets_980 : (reset_stream manager 5 980).error ≡ none
unfolding reset_stream get_flow_controller update_highest_received account
    increment_highest_received check_flow_control_violation
resets_980 = refl

gives_400 : manager_send_window_size params manager 5 ≡ ok 400
unfolding manager_send_window_size get_flow_controller send_window_size get_send_window
gives_400 = refl

update_highest_counts_example :
    let after = (update_highest manager 5 980).manager in
    (after.connection.highest_received + contributed manager.streams
      ≡ manager.connection.highest_received + contributed after.streams)
    × (max (controller 5).highest_received 980 ≤ (controller 5).receive_window)
    × ((if (controller 5).contributes_to_connection then after.connection.highest_received else 0)
        ≤ after.connection.receive_window)
update_highest_counts_example =
    update_highest_counts manager 5 980 (controller 5) finds_5 (omega arith) accepts_980

reset_stream_counts_example :
    let after = (reset_stream manager 5 980).manager in
    (after.connection.highest_received + contributed manager.streams
      ≡ manager.connection.highest_received + contributed after.streams)
    × ((controller 5).highest_received ≤ 980)
    × (980 ≤ (controller 5).receive_window)
reset_stream_counts_example =
    reset_stream_counts manager 5 980 (controller 5) finds_5 (omega arith) resets_980

send_window_size_respected_example :
    let after = (manager_add_bytes_sent manager 5 300).manager in
    (manager_send_window_size params after 5 ≡ ok (400 - 300))
    × ((if (controller 5).contributes_to_connection then after.connection.bytes_sent else 0)
        ≤ get_send_window params after.connection)
send_window_size_respected_example =
    send_window_size_respected params manager 5 300 400 (controller 5) finds_5 gives_400
      (omega arith) (omega arith) (omega arith) (omega arith)
