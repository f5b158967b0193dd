-- ===== src/Congestion/SlowStart.antt =====
-- quic-go/congestion/hybrid_slow_start.go: when slow start is left. Times are nanoseconds.
pub mod Round
use mpquic_sbd.Base.{
  ℕ, ◌+◌, ◌*◌, ◌/◌, ◌%◌, ◌^◌, Bool, true, false, ◌&&◌, ◌||◌, ltb, leb, ◌==◌, min, max,
  if◌then◌else◌,
}

abbrev pub hybrid_start_low_window : ℕ
hybrid_start_low_window = 16

abbrev pub hybrid_start_min_samples : ℕ
hybrid_start_min_samples = 8

abbrev pub hybrid_start_delay_min_threshold_us : ℕ
hybrid_start_delay_min_threshold_us = 4000

abbrev pub hybrid_start_delay_max_threshold_us : ℕ
hybrid_start_delay_max_threshold_us = 16000

pub record HybridSlowStart : Type 0 where
  pub end_packet_number : ℕ
  pub last_sent_packet_number : ℕ
  pub started : Bool
  pub current_min_rtt : ℕ
  pub rtt_sample_count : ℕ
  pub hystart_found : Bool

unfoldable pub start_receive_round : HybridSlowStart → ℕ → HybridSlowStart
start_receive_round s last_sent = record s {
  end_packet_number = last_sent;
  current_min_rtt = 0;
  rtt_sample_count = 0;
  started = true;
}

unfoldable pub is_end_of_round : HybridSlowStart → ℕ → Bool
is_end_of_round s ack = ltb s.end_packet_number ack

-- The increase of the least round-trip time that ends slow start: an eighth of it, between 4 and 16 ms.
abbrev pub rtt_increase_threshold : ℕ → ℕ
rtt_increase_threshold min_rtt =
    max (min (min_rtt / 1000 / 2 ^ 3) hybrid_start_delay_max_threshold_us)
      hybrid_start_delay_min_threshold_us
    * 1000

-- A sample of a round that has started.
unfoldable pub take_sample : HybridSlowStart → ℕ → ℕ → HybridSlowStart
take_sample s latest_rtt min_rtt =
    let count : ℕ = (s.rtt_sample_count + 1) % 2 ^ 32 in
    let current : ℕ =
      if leb count hybrid_start_min_samples
        && ((s.current_min_rtt == 0) || ltb latest_rtt s.current_min_rtt)
      then latest_rtt
      else s.current_min_rtt in
    record s {
      rtt_sample_count = count;
      current_min_rtt = current;
      hystart_found =
          s.hystart_found
          || (count == hybrid_start_min_samples
              && ltb (min_rtt + rtt_increase_threshold min_rtt) current);
    }

unfoldable pub should_exit_slow_start : HybridSlowStart → ℕ → ℕ → ℕ → Bool × HybridSlowStart
should_exit_slow_start s latest_rtt min_rtt congestion_window =
    let round : HybridSlowStart =
      if s.started then s else start_receive_round s s.last_sent_packet_number in
    let after : HybridSlowStart = take_sample round latest_rtt min_rtt in
    if s.hystart_found
    then (true, round)
    else (leb hybrid_start_low_window congestion_window && after.hystart_found, after)

unfoldable pub hybrid_on_packet_sent : HybridSlowStart → ℕ → HybridSlowStart
hybrid_on_packet_sent s packet_number = record s { last_sent_packet_number = packet_number }

unfoldable pub hybrid_on_packet_acked : HybridSlowStart → ℕ → HybridSlowStart
hybrid_on_packet_acked s acked = if is_end_of_round s acked then record s { started = false } else s

unfoldable pub restart : HybridSlowStart → HybridSlowStart
restart s = record s { started = false; hystart_found = false }
