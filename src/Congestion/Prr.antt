-- ===== src/Congestion/Prr.antt =====
-- quic-go/congestion/prr_sender.go: proportional rate reduction during recovery. Byte counts are uint64.
pub mod Bound
use mpquic_sbd.Base.{
  ℕ, ◌+◌, ◌-◌, ◌*◌, ◌%◌, ◌^◌, Bool, true, false, ltb, leb, ◌==◌, ◌||◌, if◌then◌else◌,
}
use mpquic_sbd.Protocol.{u64_mod, add_u64}

abbrev pub default_tcp_mss : ℕ
default_tcp_mss = 1460

-- utils.InfDuration
abbrev pub inf_duration : ℕ
inf_duration = 2 ^ 63 - 1

pub record PrrSender : Type 0 where
  pub bytes_sent_since_loss : ℕ
  pub bytes_delivered_since_loss : ℕ
  pub ack_count_since_loss : ℕ
  pub bytes_in_flight_before_loss : ℕ

abbrev pub mul_u64 : ℕ → ℕ → ℕ
mul_u64 a b = a * b % u64_mod

unfoldable pub prr_on_packet_sent : PrrSender → ℕ → PrrSender
prr_on_packet_sent p sent_bytes = record p {
  bytes_sent_since_loss = add_u64 p.bytes_sent_since_loss sent_bytes;
}

-- It sets every field.
unfoldable pub prr_on_packet_lost : ℕ → PrrSender
prr_on_packet_lost bytes_in_flight = record {
  bytes_sent_since_loss = 0;
  bytes_delivered_since_loss = 0;
  ack_count_since_loss = 0;
  bytes_in_flight_before_loss = bytes_in_flight;
}

unfoldable pub prr_on_packet_acked : PrrSender → ℕ → PrrSender
prr_on_packet_acked p acked_bytes = record p {
  bytes_delivered_since_loss = add_u64 p.bytes_delivered_since_loss acked_bytes;
  ack_count_since_loss = add_u64 p.ack_count_since_loss 1;
}

unfoldable pub time_until_send : PrrSender → ℕ → ℕ → ℕ → ℕ
time_until_send p congestion_window bytes_in_flight slowstart_threshold =
    if (p.bytes_sent_since_loss == 0) || ltb bytes_in_flight default_tcp_mss
    then 0
    else if ltb bytes_in_flight congestion_window
    then (if leb
          (add_u64 p.bytes_delivered_since_loss (mul_u64 p.ack_count_since_loss default_tcp_mss))
          p.bytes_sent_since_loss
        then inf_duration
        else 0)
    else if ltb (mul_u64 p.bytes_sent_since_loss p.bytes_in_flight_before_loss)
        (mul_u64 p.bytes_delivered_since_loss slowstart_threshold)
    then 0
    else inf_duration
