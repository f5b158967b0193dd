-- ===== src/AckHandler/Sent.antt =====
-- quic-go/ackhandler/sent_packet_handler.go: the packets in flight, their acknowledgement, loss and
-- retransmission. Times are nanoseconds from the zero time; `time.Now()` is an argument. The linked
-- list of packets goes from `Front()` to `Back()`, and an element is found by its packet number.
pub mod Handler
pub mod Acked
pub mod Removal
pub mod InFlight
pub mod Sending
pub mod Taking
pub mod Reachable
pub mod Safety
use mpquic_sbd.Base.{
  ℕ, zero, suc, ◌+◌, ◌-◌, ◌*◌, ◌/◌, ◌%◌, ◌^◌, min, max, Bool, true, false, not, ◌&&◌, ◌||◌, List,
  [], ◌∷◌, ◌++◌, Option, none, some, Result, ok, err, ltb, leb, ◌==◌, length, drop, if◌then◌else◌,
}
use mpquic_sbd.Base.Int.{ℤ, pos, negsuc, pos_part, ltb_ℤ}
use mpquic_sbd.Protocol.{u64_mod, sub_u64, add_u64}
use mpquic_sbd.Wire.Ack.{AckRange, AckFrame, acks_packet, in_some_range}
use mpquic_sbd.AckHandler.Packet.{Packet, strip_non_retransmittable_frames, is_retransmittable}
use mpquic_sbd.AckHandler.Packet.StopWaiting.{
  StopWaitingManager, new_stop_waiting_manager, get_stop_waiting_frame, stop_waiting_received_ack,
  queued_retransmission_for_packet_number,
}

-- The interface `SendAlgorithm`, with the RTTStats that it shares with the handler: what the handler
-- calls of them.
pub record SendAlgorithm : Type 1 where
  pub State : Type 0
  pub on_packet_sent : State → ℕ → ℕ → ℕ → ℕ → Bool → State
  pub on_packet_acked : State → ℕ → ℕ → ℕ → State
  pub on_packet_lost : State → ℕ → ℕ → ℕ → State
  pub on_retransmission_timeout : State → Bool → State
  pub maybe_exit_slow_start : State → State
  pub update_group_epoch : State → ℕ → ℕ → State
  pub get_congestion_window : State → ℕ
  pub retransmission_delay : State → ℕ
  pub smoothed_rtt : State → ℕ
  pub latest_rtt : State → ℕ
  pub update_rtt : State → ℕ → ℕ → ℕ → State

pub data SentError : Type 0 where
  packet_number_not_increasing too_many_tracked_sent_packets : SentError
  duplicate_or_out_of_order_ack ack_for_skipped_packet ack_for_unsent_packet : SentError
  would_have_acked_wrong_packet : SentError

abbrev pub max_tracked_sent_packets : ℕ
max_tracked_sent_packets = 5000

abbrev pub max_tracked_skipped_packets : ℕ
max_tracked_skipped_packets = 10

abbrev pub max_non_retransmittable_packets : ℕ
max_non_retransmittable_packets = 19

abbrev pub max_tail_loss_probes : ℕ
max_tail_loss_probes = 2

abbrev pub default_rto_timeout : ℕ
default_rto_timeout = 500_000_000

abbrev pub min_rto_timeout : ℕ
min_rto_timeout = 200_000_000

abbrev pub max_rto_timeout : ℕ
max_rto_timeout = 60_000_000_000

abbrev pub min_retransmission_time : ℕ
min_retransmission_time = 200_000_000

abbrev pub min_tail_loss_probe_timeout : ℕ
min_tail_loss_probe_timeout = 10_000_000

-- The fields of a ClosePathFrame that the handler reads.
pub record ClosePathFrame : Type 0 where
  pub largest_acked : ℕ
  pub lowest_acked : ℕ
  pub ack_ranges : List AckRange

unfoldable pub close_path_acks_packet : ClosePathFrame → ℕ → Bool
close_path_acks_packet f p =
    if ltb p f.lowest_acked || ltb f.largest_acked p
    then false
    else if ltb 0 (length f.ack_ranges)
    then in_some_range p f.ack_ranges
    else leb f.lowest_acked p && leb p f.largest_acked

-- `h.packetHistory.Remove`
unfoldable pub remove : ℕ → List Packet → List Packet
remove pn [] = []
remove pn (x ∷ rest) = if x.packet_number == pn then rest else x ∷ remove pn rest

-- The loop that notes the skipped packet numbers, `n` of them from `p`.
abbrev pub trim_skipped : List ℕ → List ℕ
trim_skipped l = if ltb max_tracked_skipped_packets (length l) then drop 1 l else l

unfoldable pub skip_packets : ℕ → ℕ → List ℕ → List ℕ
skip_packets zero p skipped = skipped
skip_packets (suc n) p skipped = skip_packets n (p + 1) (trim_skipped (skipped ++ (p ∷ [])))

-- The inner loop over the ranges, which are kept lowest first: `cur` is the range at the index.
unfoldable pub advance : ℕ → AckRange → List AckRange → AckRange × List AckRange
advance pn cur [] = (cur, [])
advance pn cur (r ∷ rest) = if ltb cur.last pn then advance pn r rest else (cur, r ∷ rest)

abbrev pub and_packet : Packet → Result SentError (List Packet) → Result SentError (List Packet)
and_packet p (ok acked) = ok (p ∷ acked)
and_packet p (err e) = err e

-- The loop over the history of a frame with missing ranges.
unfoldable pub newly_acked_in_ranges :
    ℕ → ℕ → AckRange × List AckRange → List Packet → Result SentError (List Packet)
newly_acked_in_ranges lowest largest ranges [] = ok []
newly_acked_in_ranges lowest largest (cur, above) (p ∷ rest) =
    let at = advance p.packet_number cur above in
    let below = newly_acked_in_ranges lowest largest (cur, above) rest in
    let next = newly_acked_in_ranges lowest largest at rest in
    if ltb p.packet_number lowest
    then below
    else if ltb largest p.packet_number
    then ok []
    else if leb at.0.first p.packet_number
    then (if ltb at.0.last p.packet_number
        then err would_have_acked_wrong_packet
        else and_packet p next)
    else next

-- The loop of a frame with no missing ranges.
unfoldable pub newly_acked : ℕ → ℕ → List Packet → List Packet
newly_acked lowest largest [] = []
newly_acked lowest largest (p ∷ rest) =
    if ltb p.packet_number lowest
    then newly_acked lowest largest rest
    else if ltb largest p.packet_number
    then []
    else p ∷ newly_acked lowest largest rest

abbrev pub lowest_first : List AckRange → List AckRange → List AckRange
lowest_first [] out = out
lowest_first (r ∷ rest) out = lowest_first rest (r ∷ out)

abbrev pub newly_acked_from : ℕ → ℕ → List AckRange → List Packet → Result SentError (List Packet)
newly_acked_from lowest largest [] history = ok (newly_acked lowest largest history)
newly_acked_from lowest largest (r ∷ above) history =
    newly_acked_in_ranges lowest largest (r, above) history

-- `determineNewlyAckedPackets`, and the same for a ClosePathFrame.
unfoldable pub determine_newly_acked_packets :
    ℕ → ℕ → List AckRange → List Packet → Result SentError (List Packet)
determine_newly_acked_packets lowest largest ranges history =
    newly_acked_from lowest largest (lowest_first ranges []) history

-- `rto << h.rtoCount` on an int64.
abbrev pub shift_left : ℕ → ℕ → ℤ
shift_left n k =
    let bits = n * 2 ^ k % u64_mod in
    if ltb bits (2 ^ 63) then pos bits else negsuc (u64_mod - 1 - bits)

abbrev pub min_duration : ℤ → ℤ → ℤ
min_duration a b = if ltb_ℤ a b then a else b
