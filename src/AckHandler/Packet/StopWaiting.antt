-- ===== src/AckHandler/Packet/StopWaiting.antt =====
-- quic-go/ackhandler/stop_waiting_manager.go. Of a STOP_WAITING frame the manager sets LeastUnacked.
use mpquic_sbd.Base.{ℕ, Bool, true, false, ◌&&◌, Option, none, some, ltb, leb, if◌then◌else◌}
use mpquic_sbd.Protocol.{add_u64}

pub record StopWaitingManager : Type 0 where
  pub largest_least_unacked_sent : ℕ
  pub next_least_unacked : ℕ
  pub last_stop_waiting_frame : Option ℕ

abbrev pub new_stop_waiting_manager : StopWaitingManager
new_stop_waiting_manager = record {
  largest_least_unacked_sent = 0;
  next_least_unacked = 0;
  last_stop_waiting_frame = none;
}

abbrev is_none : Option ℕ → Bool
is_none none = true
is_none (some n) = false

-- The answer when nothing has been acknowledged or queued since the last frame.
unfoldable pub repeat_stop_waiting_frame : StopWaitingManager → Bool → Option ℕ × StopWaitingManager
repeat_stop_waiting_frame s force =
    if force
    then (if is_none s.last_stop_waiting_frame && ltb 0 s.largest_least_unacked_sent
        then (
          some s.next_least_unacked,
          record s { last_stop_waiting_frame = some s.next_least_unacked },
        )
        else (s.last_stop_waiting_frame, s))
    else (none, s)

unfoldable pub get_stop_waiting_frame : StopWaitingManager → Bool → Option ℕ × StopWaitingManager
get_stop_waiting_frame s force =
    if leb s.next_least_unacked s.largest_least_unacked_sent
    then repeat_stop_waiting_frame s force
    else (
      some s.next_least_unacked,
      record s {
        largest_least_unacked_sent = s.next_least_unacked;
        last_stop_waiting_frame = some s.next_least_unacked;
      },
    )

unfoldable pub stop_waiting_received_ack : StopWaitingManager → ℕ → StopWaitingManager
stop_waiting_received_ack s largest_acked =
    if leb s.next_least_unacked largest_acked
    then record s { next_least_unacked = add_u64 largest_acked 1 }
    else s

unfoldable pub queued_retransmission_for_packet_number : StopWaitingManager → ℕ → StopWaitingManager
queued_retransmission_for_packet_number s p =
    if leb s.next_least_unacked p then record s { next_least_unacked = add_u64 p 1 } else s
