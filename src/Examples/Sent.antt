-- ===== src/Examples/Sent.antt =====
-- The sender at concrete values: a congestion control that does nothing, and three packets.
use mpquic_sbd.Base.{
  ℕ, ◌<◌, ◌≡◌, refl, inl, inr, Bool, true, false, List, [], ◌∷◌, ◌++◌, none, Result, ok, err, arith,
  length,
}
use mathlib.Core.List.{Perm}
use mpquic_sbd.Wire.Ack.{
  AckFrame, acks_packet, validate_ack_ranges, validate_ranges, each_range_valid, consistent_after,
  last_first,
}
use mpquic_sbd.AckHandler.Packet.{
  Packet, FrameType, strip_non_retransmittable_frames, is_frame_retransmittable,
  any_retransmittable,
}
use mpquic_sbd.AckHandler.Sent
use mpquic_sbd.AckHandler.Sent.{SendAlgorithm, SentError, determine_newly_acked_packets}
use mpquic_sbd.AckHandler.Sent.Acked.{having, determine_newly_acked_packets-having}
use mpquic_sbd.AckHandler.Sent.Handler
use mpquic_sbd.AckHandler.Sent.Handler.{Handler}
use mpquic_sbd.AckHandler.Sent.InFlight.{Inv, held}
use mpquic_sbd.AckHandler.Sent.Reachable.{Reach, starts, steps, sends, Reach-Tracked}
use mpquic_sbd.AckHandler.Sent.Taking.{IsParsed, taken}
use mpquic_sbd.AckHandler.Sent.Safety.{received_ack_takes, on_alarm_keeps, on_alarm_progresses}

abbrev idle : SendAlgorithm
idle = record {
  State = ℕ;
  on_packet_sent = λ s now flying pn bytes again. s;
  on_packet_acked = λ s pn bytes flying. s;
  on_packet_lost = λ s pn bytes flying. s;
  on_retransmission_timeout = λ s again. s;
  maybe_exit_slow_start = λ s. s;
  update_group_epoch = λ s group epoch. s;
  get_congestion_window = λ s. s;
  retransmission_delay = λ s. 0;
  smoothed_rtt = λ s. 0;
  latest_rtt = λ s. 0;
  update_rtt = λ s sample delay now. s;
}

abbrev packet : ℕ → Packet
packet n = record {
  packet_number = n;
  frames = record { frame_type = FrameType.stream; content = n } ∷ [];
  length = 1000;
  encryption_level = 2;
  send_time = 0;
}

abbrev new : Handler idle
new = Handler.new_sent_packet_handler idle 32

abbrev or_new : Result SentError (Handler idle) → Handler idle
or_new (ok h) = h
or_new (err e) = new

abbrev after_1 : Handler idle
after_1 = or_new (Handler.sent_packet idle new (packet 1) 10)

abbrev after_2 : Handler idle
after_2 = or_new (Handler.sent_packet idle after_1 (packet 2) 20)

sends_1 : Handler.sent_packet idle new (packet 1) 10 ≡ ok after_1
unfolding Handler.sent_packet Handler.new_sent_packet_handler
sends_1 = refl

sends_2 : Handler.sent_packet idle after_1 (packet 2) 20 ≡ ok after_2
unfolding Handler.sent_packet Handler.new_sent_packet_handler Handler.update_loss_detection_alarm
    Handler.track_packet Handler.track strip_non_retransmittable_frames is_frame_retransmittable
sends_2 = refl

Reach-after_2 : Reach idle after_2
Reach-after_2 =
    steps (steps (starts 32) (sends (packet 1) 10 (omega arith) sends_1))
      (sends (packet 2) 20 (omega arith) sends_2)

Reach-Tracked_example : Inv idle after_2
Reach-Tracked_example = Reach-Tracked idle Reach-after_2

-- Packet 2 is acknowledged.
abbrev ack_2 : AckFrame
ack_2 = record {
  path_id = 0;
  largest_acked = 2;
  lowest_acked = 2;
  ack_ranges = [];
  delay = 0;
  groups = 0;
  epoch = 0;
}

ack_2-IsParsed : IsParsed ack_2
unfolding validate_ack_ranges validate_ranges
ack_2-IsParsed = record { no_wrap = tt; valid = refl; lowest = inl refl }

accepts_ack_2 : (Handler.received_ack idle after_2 ack_2 1 30 30).error ≡ none
unfolding Handler.received_ack Handler.sent_packet Handler.new_sent_packet_handler
    Handler.update_loss_detection_alarm Handler.track_packet Handler.track
    strip_non_retransmittable_frames is_frame_retransmittable Handler.largest_in_order_acked
    Handler.process_ack Handler.any_acked Sent.skip_packets Handler.finish_ack
    determine_newly_acked_packets
accepts_ack_2 = refl

received_ack_takes_example :
    Perm
      (taken idle after_2 ack_2
        ++ held idle (Handler.received_ack idle after_2 ack_2 1 30 30).handler)
      (held idle after_2)
received_ack_takes_example =
    received_ack_takes idle after_2 ack_2 1 30 30 Reach-after_2 ack_2-IsParsed accepts_ack_2

abbrev never : ℕ → Bool
never t = false

on_alarm_keeps_example :
    Perm (held idle (Handler.on_alarm idle never after_2 500)) (held idle after_2)
on_alarm_keeps_example = on_alarm_keeps idle after_2 never 500 Reach-after_2

outstanding_2 : Handler.has_outstanding_retransmittable_packet idle after_2.packet_history ≡ true
unfolding Handler.has_outstanding_retransmittable_packet Handler.sent_packet
    Handler.new_sent_packet_handler Handler.update_loss_detection_alarm Handler.track_packet
    Handler.track strip_non_retransmittable_frames is_frame_retransmittable any_retransmittable
outstanding_2 = refl

no_loss_time_2 : after_2.loss_time ≡ none
unfolding Handler.sent_packet Handler.new_sent_packet_handler Handler.update_loss_detection_alarm
    Handler.track_packet Handler.track strip_non_retransmittable_frames is_frame_retransmittable
no_loss_time_2 = refl

on_alarm_progresses_example :
    length after_2.retransmission_queue
    < length (Handler.on_alarm idle never after_2 500).retransmission_queue
on_alarm_progresses_example =
    on_alarm_progresses idle after_2 never 500 outstanding_2 no_loss_time_2

-- Packets 1 and 3 are acknowledged, packet 2 is missing.
abbrev ack_1_3 : AckFrame
ack_1_3 = record ack_2 {
  largest_acked = 3;
  lowest_acked = 1;
  ack_ranges = record { first = 3; last = 3 } ∷ record { first = 1; last = 1 } ∷ [];
}

ack_1_3-IsParsed : IsParsed ack_1_3
unfolding validate_ack_ranges validate_ranges each_range_valid consistent_after last_first
ack_1_3-IsParsed = record {
  no_wrap = (omega arith, (omega arith, tt));
  valid = refl;
  lowest = inr refl;
}

abbrev three : List Packet
three = packet 1 ∷ packet 2 ∷ packet 3 ∷ []

determine_newly_acked_packets-having_example :
    determine_newly_acked_packets 1 3 ack_1_3.ack_ranges three
    ≡ ok (having (acks_packet ack_1_3) three)
determine_newly_acked_packets-having_example =
    determine_newly_acked_packets-having ack_1_3 three ack_1_3-IsParsed.no_wrap
      ack_1_3-IsParsed.valid ack_1_3-IsParsed.lowest (omega arith, (omega arith, (omega arith, tt)))
