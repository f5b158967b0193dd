-- ===== src/AckHandler/Received.antt =====
-- quic-go/ackhandler/received_packet_handler.go: when a received packet is acknowledged.
-- Times are nanoseconds, and the zero time is `none`; `time.Now()` is an argument.
pub mod Acknowledges
pub mod Tracking
pub mod Bounds
pub mod Reachable
use mpquic_sbd.Base.{
  ℕ, ◌+◌, Bool, true, false, not, ◌&&◌, ◌||◌, List, [], ◌∷◌, Option, none, some, Result, ok, err,
  ltb, leb, ◌==◌, length, if◌then◌else◌,
}
use mpquic_sbd.Base.Int.{ℤ, pos, negsuc, pos_part, neg_part, ltb_ℤ}
use mpquic_sbd.Wire.Ack.{AckRange, AckFrame, last_first}
use mpquic_sbd.AckHandler.History
use mpquic_sbd.AckHandler.History.{
  History, new_received_packet_history, delete_up_to, get_ack_ranges, get_highest_ack_range,
}

pub record Handler : Type 0 where
  pub largest_observed : ℕ
  pub lower_limit : ℕ
  pub largest_observed_received_time : Option ℕ
  pub packet_history : History
  pub ack_send_delay : ℕ
  pub packets_received_since_last_ack : ℕ
  pub retransmittable_packets_received_since_last_ack : ℕ
  pub ack_queued : Bool
  pub ack_alarm : Option ℕ
  pub last_ack : Option AckFrame
  pub version : ℤ
  pub packets : ℕ

-- `panics`: an index is out of range.
pub data HandlerError : Type 0 where
  invalid_packet_number too_many_ranges panics : HandlerError

-- protocol.AckSendDelay, 25 ms
abbrev pub default_ack_send_delay : ℕ
default_ack_send_delay = 25_000_000

abbrev max_packets_received_before_ack_send : ℕ
max_packets_received_before_ack_send = 20

abbrev retransmittable_packets_before_ack : ℕ
retransmittable_packets_before_ack = 2

unfoldable pub new_received_packet_handler : ℤ → Handler
new_received_packet_handler version = record {
  largest_observed = 0;
  lower_limit = 0;
  largest_observed_received_time = none;
  packet_history = new_received_packet_history;
  ack_send_delay = default_ack_send_delay;
  packets_received_since_last_ack = 0;
  retransmittable_packets_received_since_last_ack = 0;
  ack_queued = false;
  ack_alarm = none;
  last_ack = none;
  version = version;
  packets = 0;
}

-- The tests on the last ACK: it is missing, the packet was reported missing, or a new gap lies above.
unfoldable pub last_ack_asks : Option AckFrame → ℕ → ℕ → Bool
last_ack_asks none packet_number highest_first = true
last_ack_asks (some ack) packet_number highest_first =
    ltb packet_number ack.largest_acked || ltb ack.largest_acked highest_first

-- The tests of `maybeQueueAck` that set `ackQueued`, for the counters as they are after the packet.
unfoldable pub asks_for_ack : Handler → ℕ → Bool
asks_for_ack h packet_number =
    last_ack_asks h.last_ack packet_number (get_highest_ack_range h.packet_history).first
    || (ltb_ℤ h.version (pos 39)
        && leb max_packets_received_before_ack_send h.packets_received_since_last_ack)

abbrev pub is_zero : Option ℕ → Bool
is_zero none = true
is_zero (some t) = false

-- The end of `maybeQueueAck`, with `queued` for `h.ackQueued`.
unfoldable pub queue_or_arm : Handler → Bool → Bool → ℕ → Handler
queue_or_arm h queued should_instigate_ack now =
    if queued
    then record h { ack_queued = true; ack_alarm = none }
    else if should_instigate_ack
    then (if leb retransmittable_packets_before_ack
          h.retransmittable_packets_received_since_last_ack
        then record h { ack_queued = true; ack_alarm = none }
        else if is_zero h.ack_alarm
        then record h { ack_queued = false; ack_alarm = some (now + h.ack_send_delay) }
        else record h { ack_queued = false })
    else record h { ack_queued = false }

unfoldable pub maybe_queue_ack : Handler → ℕ → Bool → ℕ → Handler
maybe_queue_ack h packet_number should_instigate_ack now =
    let counted : Handler = record h {
      packets_received_since_last_ack = h.packets_received_since_last_ack + 1;
      retransmittable_packets_received_since_last_ack =
          if should_instigate_ack
          then h.retransmittable_packets_received_since_last_ack + 1
          else h.retransmittable_packets_received_since_last_ack;
    } in
    queue_or_arm counted (h.ack_queued || asks_for_ack counted packet_number) should_instigate_ack
      now

-- The statistics, and the largest packet seen.
unfoldable pub observe : Handler → ℕ → ℕ → Handler
observe h packet_number now =
    if ltb h.largest_observed packet_number
    then record h {
      packets = h.packets + 1;
      largest_observed = packet_number;
      largest_observed_received_time = some now;
    }
    else record h { packets = h.packets + 1 }

-- What a call of ReceivedPacket leaves, also where it fails.
pub record Receipt : Type 0 where
  pub after : Handler
  pub error : Option HandlerError

-- A history that refuses the packet is unchanged, since the number of its ranges is tested first; the
-- statistics and the largest packet are noted before.
unfoldable pub received_packet : Handler → ℕ → Bool → ℕ → Receipt
received_packet h packet_number should_instigate_ack now =
    if packet_number == 0
    then record { after = h; error = some invalid_packet_number }
    else (let h' = observe h packet_number now in
        if leb packet_number h.lower_limit
        then record { after = h'; error = none }
        else elim (History.received_packet h.packet_history packet_number) [
          | err e ↦ record { after = h'; error = some too_many_ranges }
          | ok history ↦ record {
            after =
                maybe_queue_ack (record h' { packet_history = history }) packet_number
                  should_instigate_ack now;
            error = none;
          }
        ])

unfoldable pub set_lower_limit : Handler → ℕ → Handler
set_lower_limit h p = record h { lower_limit = p; packet_history = delete_up_to h.packet_history p }

-- `ack.AckRanges` is set only if there is a gap.
abbrev pub several : List AckRange → List AckRange
several [] = []
several (r ∷ []) = []
several (r ∷ s ∷ rest) = r ∷ s ∷ rest

abbrev pub alarm_passed : Option ℕ → ℕ → Bool
alarm_passed none now = false
alarm_passed (some t) now = leb t now

-- The frame, of ranges that are not empty. Its delay is set when it is written.
unfoldable pub ack_frame : Handler → ℕ → ℕ → AckFrame
ack_frame h groups epoch = record {
  path_id = 0;
  largest_acked = h.largest_observed;
  lowest_acked = last_first (get_ack_ranges h.packet_history);
  ack_ranges = several (get_ack_ranges h.packet_history);
  delay = 0;
  groups = groups;
  epoch = epoch;
}

unfoldable pub acknowledged : Handler → AckFrame → Handler
acknowledged h ack = record h {
  last_ack = some ack;
  ack_alarm = none;
  ack_queued = false;
  packets_received_since_last_ack = 0;
  retransmittable_packets_received_since_last_ack = 0;
}

-- `ackRanges[len(ackRanges)-1]` panics where there is no range.
unfoldable pub get_ack_frame : Handler → ℕ → ℕ → ℕ → Result HandlerError (Option AckFrame × Handler)
get_ack_frame h groups epoch now =
    if not h.ack_queued && not (alarm_passed h.ack_alarm now)
    then ok (none, h)
    else if length h.packet_history.ranges == 0
    then err panics
    else ok (some (ack_frame h groups epoch), acknowledged h (ack_frame h groups epoch))
