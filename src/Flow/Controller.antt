-- ===== src/Flow/Controller.antt =====
-- quic-go/internal/flowcontrol/flow_controller.go: one controller. Byte counts are uint64; times are
-- nanoseconds, and the zero time is `none`; `time.Now()` is an argument.
pub mod Windows
use mpquic_sbd.Base.{
  ℕ, ◌+◌, ◌-◌, ◌*◌, ◌/◌, Bool, true, false, not, List, [], ◌∷◌, Option, none, some, ltb, leb, ◌==◌,
  min, max, if◌then◌else◌,
}
use mpquic_sbd.Protocol.{add_u64, sub_u64}

-- What the getters of the `ConnectionParametersManager` return.
pub record ConnectionParameters : Type 0 where
  pub receive_connection_window : ℕ
  pub max_receive_connection_window : ℕ
  pub receive_stream_window : ℕ
  pub max_receive_stream_window : ℕ
  pub send_connection_window : ℕ
  pub send_stream_window : ℕ

-- `connectionParameters`, `rttStats` and `remoteRTTs` are shared, and are arguments of the calls
-- that read them.
pub record FlowController : Type 0 where
  pub stream_id : ℕ
  pub contributes_to_connection : Bool
  pub bytes_sent : ℕ
  pub send_window : ℕ
  pub bytes_retrans : ℕ
  pub last_window_update_time : Option ℕ
  pub bytes_read : ℕ
  pub highest_received : ℕ
  pub receive_window : ℕ
  pub receive_window_increment : ℕ
  pub max_receive_window_increment : ℕ

unfoldable pub new_flow_controller : ℕ → Bool → ConnectionParameters → FlowController
new_flow_controller stream_id contributes params = record {
  stream_id = stream_id;
  contributes_to_connection = contributes;
  bytes_sent = 0;
  send_window = 0;
  bytes_retrans = 0;
  last_window_update_time = none;
  bytes_read = 0;
  highest_received = 0;
  receive_window = window;
  receive_window_increment = window;
  max_receive_window_increment =
      if stream_id == 0
      then params.max_receive_connection_window
      else params.max_receive_stream_window;
}
  where
    window : ℕ
    window =
        if stream_id == 0 then params.receive_connection_window else params.receive_stream_window

unfoldable pub get_send_window : ConnectionParameters → FlowController → ℕ
get_send_window params c =
    if c.send_window == 0
    then (if c.stream_id == 0 then params.send_connection_window else params.send_stream_window)
    else c.send_window

unfoldable pub add_bytes_sent : FlowController → ℕ → FlowController
add_bytes_sent c n = record c { bytes_sent = add_u64 c.bytes_sent n }

unfoldable pub add_bytes_retrans : FlowController → ℕ → FlowController
add_bytes_retrans c n = record c { bytes_retrans = add_u64 c.bytes_retrans n }

unfoldable pub update_send_window : FlowController → ℕ → FlowController × Bool
update_send_window c new_offset =
    if ltb c.send_window new_offset
    then (record c { send_window = new_offset }, true)
    else (c, false)

unfoldable pub send_window_size : ConnectionParameters → FlowController → ℕ
send_window_size params c =
    let send_window = get_send_window params c in
    if ltb send_window c.bytes_sent then 0 else send_window - c.bytes_sent

-- `smaller_byte_offset` stands for ErrReceivedSmallerByteOffset.
pub record Received : Type 0 where
  pub controller : FlowController
  pub increment : ℕ
  pub smaller_byte_offset : Bool

unfoldable pub update_highest_received : FlowController → ℕ → Received
update_highest_received c byte_offset =
    if byte_offset == c.highest_received
    then record { controller = c; increment = 0; smaller_byte_offset = false }
    else if ltb c.highest_received byte_offset
    then record {
      controller = record c { highest_received = byte_offset };
      increment = byte_offset - c.highest_received;
      smaller_byte_offset = false;
    }
    else record { controller = c; increment = 0; smaller_byte_offset = true }

unfoldable pub increment_highest_received : FlowController → ℕ → FlowController
increment_highest_received c increment = record c {
  highest_received = add_u64 c.highest_received increment;
}

unfoldable pub add_bytes_read : FlowController → ℕ → ℕ → FlowController
add_bytes_read c n now = record c {
  last_window_update_time = if c.bytes_read == 0 then some now else c.last_window_update_time;
  bytes_read = add_u64 c.bytes_read n;
}

-- The round-trip times that a controller reads.
pub record RoundTrips : Type 0 where
  pub smoothed_rtt : ℕ
  pub remote_rtts : List ℕ

unfoldable pub max_remote_rtt : ℕ → List ℕ → ℕ
max_remote_rtt longest [] = longest
max_remote_rtt longest (r ∷ rest) = max_remote_rtt (max longest r) rest

abbrev pub min_byte_count : ℕ → ℕ → ℕ
min_byte_count a b = if ltb a b then a else b

unfoldable pub adjusted_increment : FlowController → RoundTrips → ℕ → ℕ → ℕ
adjusted_increment c rtts last now =
    if rtts.smoothed_rtt == 0
    then c.receive_window_increment
    else if leb (2 * max rtts.smoothed_rtt (max_remote_rtt 0 rtts.remote_rtts)) (now - last)
    then c.receive_window_increment
    else min_byte_count (add_u64 c.receive_window_increment c.receive_window_increment)
        c.max_receive_window_increment

unfoldable pub maybe_adjust_window_increment : FlowController → RoundTrips → ℕ → FlowController
maybe_adjust_window_increment c rtts now = elim c.last_window_update_time [
  | none ↦ c
  | some last ↦ record c { receive_window_increment = adjusted_increment c rtts last now }
]

-- The result of `MaybeUpdateWindow`, with the controller that it leaves.
pub record WindowResult : Type 0 where
  pub controller : FlowController
  pub necessary : Bool
  pub new_increment : ℕ
  pub new_offset : ℕ

unfoldable pub maybe_update_window : FlowController → RoundTrips → ℕ → WindowResult
maybe_update_window c rtts now =
    if ltb (sub_u64 c.receive_window c.bytes_read) (c.receive_window_increment / 2)
    then (let adjusted = maybe_adjust_window_increment c rtts now in
        let window = add_u64 c.bytes_read adjusted.receive_window_increment in
        record {
          controller = record adjusted {
            last_window_update_time = some now;
            receive_window = window;
          };
          necessary = true;
          new_increment =
              if adjusted.receive_window_increment == c.receive_window_increment
              then 0
              else adjusted.receive_window_increment;
          new_offset = window;
        })
    else record {
      controller = c;
      necessary = false;
      new_increment = c.receive_window_increment;
      new_offset = c.receive_window;
    }

unfoldable pub ensure_minimum_window_increment : FlowController → ℕ → FlowController
ensure_minimum_window_increment c inc =
    if ltb c.receive_window_increment inc
    then record c {
      receive_window_increment = min_byte_count inc c.max_receive_window_increment;
      last_window_update_time = none;
    }
    else c

unfoldable pub check_flow_control_violation : FlowController → Bool
check_flow_control_violation c = ltb c.receive_window c.highest_received
