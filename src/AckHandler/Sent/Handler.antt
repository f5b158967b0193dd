-- ===== src/AckHandler/Sent/Handler.antt =====
-- quic-go/ackhandler/sent_packet_handler.go: the handler's state and its methods.
use mpquic_sbd.Base.{
  ℕ, zero, suc, ◌+◌, ◌-◌, ◌*◌, ◌/◌, ◌%◌, ◌^◌, max, Bool, true, false, not, ◌&&◌, ◌||◌, List, [],
  ◌∷◌, ◌++◌, Option, none, some, Result, ok, err, ltb, leb, ◌==◌, length, if◌then◌else◌,
}
use mpquic_sbd.Base.Int.{ℤ, pos, pos_part}
use mpquic_sbd.Protocol.{sub_u64, add_u64}
use mpquic_sbd.Wire.Ack.{AckFrame, acks_packet}
use mpquic_sbd.AckHandler.Packet.{
  Packet, Frame, strip_non_retransmittable_frames, is_retransmittable,
}
use mpquic_sbd.AckHandler.Packet.StopWaiting.{
  StopWaitingManager, new_stop_waiting_manager, get_stop_waiting_frame, stop_waiting_received_ack,
  queued_retransmission_for_packet_number,
}
use mpquic_sbd.AckHandler.Sent.{
  SendAlgorithm, SentError, packet_number_not_increasing, too_many_tracked_sent_packets,
  duplicate_or_out_of_order_ack, ack_for_skipped_packet, ack_for_unsent_packet,
  max_tracked_sent_packets, max_non_retransmittable_packets, max_tail_loss_probes,
  default_rto_timeout, min_rto_timeout, max_rto_timeout, min_retransmission_time,
  min_tail_loss_probe_timeout, ClosePathFrame, close_path_acks_packet, remove, skip_packets,
  determine_newly_acked_packets, shift_left, min_duration,
}

module _ (alg : SendAlgorithm) where
  -- `congestion` holds the state of the congestion control and of the RTTStats.
  pub record Handler : Type 0 where
    pub last_sent_packet_number : ℕ
    pub skipped_packets : List ℕ
    pub num_non_retransmittable_packets : ℕ
    pub largest_acked : ℕ
    pub largest_received_packet_with_ack : ℕ
    pub packet_history : List Packet
    pub stop_waiting_manager : StopWaitingManager
    pub retransmission_queue : List Packet
    pub bytes_in_flight : ℕ
    pub congestion : alg.State
    pub rto_count : ℕ
    pub tlp_count : ℕ
    pub loss_time : Option ℕ
    pub last_sent_time : ℕ
    pub alarm : Option ℕ
    pub packets : ℕ
    pub retransmissions : ℕ
    pub losses : ℕ

  unfoldable pub new_sent_packet_handler : alg.State → Handler
  new_sent_packet_handler congestion = record {
    last_sent_packet_number = 0;
    skipped_packets = [];
    num_non_retransmittable_packets = 0;
    largest_acked = 0;
    largest_received_packet_with_ack = 0;
    packet_history = [];
    stop_waiting_manager = new_stop_waiting_manager;
    retransmission_queue = [];
    bytes_in_flight = 0;
    congestion = congestion;
    rto_count = 0;
    tlp_count = 0;
    loss_time = none;
    last_sent_time = 0;
    alarm = none;
    packets = 0;
    retransmissions = 0;
    losses = 0;
  }

  unfoldable pub largest_in_order_acked : Handler → ℕ
  largest_in_order_acked h = elim h.packet_history [
    | [] ↦ h.largest_acked
    | p ∷ _ ↦ sub_u64 p.packet_number 1
  ]

  unfoldable pub get_least_unacked : Handler → ℕ
  get_least_unacked h = add_u64 (largest_in_order_acked h) 1

  unfoldable pub should_send_retransmittable_packet : Handler → Bool
  should_send_retransmittable_packet h =
      leb max_non_retransmittable_packets h.num_non_retransmittable_packets

  abbrev pub several_packets : List Packet → Bool
  several_packets [] = false
  several_packets (p ∷ []) = false
  several_packets (p ∷ q ∷ rest) = true

  unfoldable pub compute_tlp_timeout : Handler → ℕ
  compute_tlp_timeout h =
      let rtt = alg.smoothed_rtt h.congestion in
      if several_packets h.packet_history
      then max (2 * rtt) (rtt * 3 / 2 + min_retransmission_time / 2)
      else max (2 * rtt) min_tail_loss_probe_timeout

  unfoldable pub compute_rto_timeout : Handler → ℤ
  compute_rto_timeout h =
      let delay = alg.retransmission_delay h.congestion in
      let rto = max (if delay == 0 then default_rto_timeout else delay) min_rto_timeout in
      min_duration (shift_left rto h.rto_count) (pos max_rto_timeout)

  -- The time that the alarm is set to while packets are in flight; a negative timeout is below the minimum.
  unfoldable pub alarm_time : Handler → ℕ
  alarm_time h = elim h.loss_time [
    | some t ↦ t
    | none ↦
        if not (alg.smoothed_rtt h.congestion == 0) && ltb h.tlp_count max_tail_loss_probes
        then h.last_sent_time + compute_tlp_timeout h
        else h.last_sent_time + max (pos_part (compute_rto_timeout h)) min_retransmission_time
  ]

  unfoldable pub update_loss_detection_alarm : Handler → Handler
  update_loss_detection_alarm h = elim h.packet_history [
    | [] ↦ record h { alarm = none }
    | _ ∷ _ ↦ record h { alarm = some (alarm_time h) }
  ]

  -- A packet is tracked if a frame of it may be sent again; its `frames` are those.
  unfoldable pub track : Handler → Packet → ℕ → List Frame → Handler
  track h packet now [] = record h {
    num_non_retransmittable_packets = h.num_non_retransmittable_packets + 1;
    congestion =
        alg.on_packet_sent h.congestion now h.bytes_in_flight packet.packet_number packet.length
          false;
  }
  track h packet now (f ∷ rest) =
      let flying = add_u64 h.bytes_in_flight packet.length in
      record h {
        bytes_in_flight = flying;
        packet_history = h.packet_history ++ (record packet { send_time = now } ∷ []);
        num_non_retransmittable_packets = 0;
        congestion =
            alg.on_packet_sent h.congestion now flying packet.packet_number packet.length true;
      }

  -- SentPacket after its guards.
  unfoldable pub track_packet : Handler → Packet → ℕ → Handler
  track_packet h packet now =
      let frames = strip_non_retransmittable_frames packet.frames in
      track
        (record h {
          skipped_packets =
              skip_packets (packet.packet_number - (h.last_sent_packet_number + 1))
                (h.last_sent_packet_number + 1) h.skipped_packets;
          last_sent_packet_number = packet.packet_number;
          packets = add_u64 h.packets 1;
          last_sent_time = now;
        })
        (record packet { frames = frames }) now frames

  unfoldable pub sent_packet : Handler → Packet → ℕ → Result SentError Handler
  sent_packet h packet now =
      if leb packet.packet_number h.last_sent_packet_number
      then err packet_number_not_increasing
      else if ltb max_tracked_sent_packets
          (length h.retransmission_queue + length h.packet_history + 1)
      then err too_many_tracked_sent_packets
      else ok (update_loss_detection_alarm (track_packet h packet now))

  -- `onPacketAcked`, and the congestion control's.
  unfoldable pub on_packet_acked : Handler → Packet → Handler
  on_packet_acked h p =
      let flying = sub_u64 h.bytes_in_flight p.length in
      record h {
        bytes_in_flight = flying;
        rto_count = 0;
        tlp_count = 0;
        packet_history = remove p.packet_number h.packet_history;
        congestion = alg.on_packet_acked h.congestion p.packet_number p.length flying;
      }

  unfoldable pub all_acked : Handler → List Packet → Handler
  all_acked h [] = h
  all_acked h (p ∷ rest) = all_acked (on_packet_acked h p) rest

  unfoldable pub queue_packet_for_retransmission : Handler → Packet → Handler
  queue_packet_for_retransmission h p = record h {
    bytes_in_flight = sub_u64 h.bytes_in_flight p.length;
    retransmission_queue = h.retransmission_queue ++ (p ∷ []);
    packet_history = remove p.packet_number h.packet_history;
    stop_waiting_manager =
        queued_retransmission_for_packet_number h.stop_waiting_manager p.packet_number;
  }

  abbrev pub congestion_lost : Handler → Packet → Handler
  congestion_lost h p = record h {
    congestion = alg.on_packet_lost h.congestion p.packet_number p.length h.bytes_in_flight;
  }

  unfoldable pub all_lost : Handler → List Packet → Handler
  all_lost h [] = h
  all_lost h (p ∷ rest) = all_lost (congestion_lost (queue_packet_for_retransmission h p) p) rest

  -- The packets up to the largest acknowledged one that were sent more than `delay` ago.
  unfoldable pub lost_packets : ℕ → ℕ → ℕ → List Packet → List Packet
  lost_packets largest_acked delay now [] = []
  lost_packets largest_acked delay now (p ∷ rest) =
      let later = lost_packets largest_acked delay now rest in
      if ltb largest_acked p.packet_number
      then []
      else if ltb delay (now - p.send_time)
      then p ∷ later
      else later

  -- When the first of them that is not lost yet will be.
  unfoldable pub next_loss_time : ℕ → ℕ → ℕ → List Packet → Option ℕ
  next_loss_time largest_acked delay now [] = none
  next_loss_time largest_acked delay now (p ∷ rest) =
      let later = next_loss_time largest_acked delay now rest in
      if ltb largest_acked p.packet_number
      then none
      else if ltb delay (now - p.send_time)
      then later
      else some (now + (delay - (now - p.send_time)))

  -- `timeReorderingFraction` is 1 / 8: the product is exact in float64 for times below 2 ^ 49 nanoseconds.
  unfoldable pub delay_until_lost : Handler → ℕ
  delay_until_lost h = max (alg.latest_rtt h.congestion) (alg.smoothed_rtt h.congestion) * 9 / 8

  unfoldable pub detect_lost_packets : Handler → ℕ → Handler
  detect_lost_packets h now =
      let delay = delay_until_lost h in
      let lost = lost_packets h.largest_acked delay now h.packet_history in
      all_lost
        (record h {
          loss_time = next_loss_time h.largest_acked delay now h.packet_history;
          losses = add_u64 h.losses (length lost);
        })
        lost

  unfoldable pub packets_up_to : ℕ → List Packet → List Packet
  packets_up_to largest_acked [] = []
  packets_up_to largest_acked (p ∷ rest) =
      if ltb largest_acked p.packet_number then [] else p ∷ packets_up_to largest_acked rest

  unfoldable pub set_inflight_as_lost : Handler → Handler
  set_inflight_as_lost h =
      let lost = packets_up_to h.largest_acked h.packet_history in
      all_lost (record h { losses = add_u64 h.losses (length lost) }) lost

  -- The packet with the largest acknowledged number, if it is still in flight.
  unfoldable pub find_packet : ℕ → List Packet → Option Packet
  find_packet largest_acked [] = none
  find_packet largest_acked (p ∷ rest) =
      if p.packet_number == largest_acked
      then some p
      else if ltb largest_acked p.packet_number
      then none
      else find_packet largest_acked rest

  -- `maybeUpdateRTT`, and MaybeExitSlowStart if it was updated.
  unfoldable pub maybe_update_rtt : Handler → ℕ → ℕ → ℕ → ℕ → Handler
  maybe_update_rtt h largest_acked ack_delay rcv_time now =
      elim (find_packet largest_acked h.packet_history) [
        | none ↦ h
        | some p ↦ record h {
          congestion =
              alg.maybe_exit_slow_start
                (alg.update_rtt h.congestion (rcv_time - p.send_time) ack_delay now);
        }
      ]

  unfoldable pub any_acked : (ℕ → Bool) → List ℕ → Bool
  any_acked acks [] = false
  any_acked acks (p ∷ rest) = if acks p then true else any_acked acks rest

  -- From the last skipped packet on that is at most `lioa`, the earlier ones are dropped.
  unfoldable pub collect_skipped : ℕ → List ℕ → List ℕ → List ℕ
  collect_skipped lioa kept [] = kept
  collect_skipped lioa kept (p ∷ rest) =
      collect_skipped lioa (if leb p lioa then rest else kept) rest

  unfoldable pub garbage_collect_skipped_packets : Handler → Handler
  garbage_collect_skipped_packets h = record h {
    skipped_packets =
        collect_skipped (largest_in_order_acked h) h.skipped_packets h.skipped_packets;
  }

  -- A call keeps what it has changed when it fails.
  pub record Outcome : Type 0 where
    pub handler : Handler
    pub error : Option SentError

  abbrev pub fails_with : Handler → SentError → Outcome
  fails_with h e = record { handler = h; error = some e }

  abbrev pub succeeds : Handler → Outcome
  succeeds h = record { handler = h; error = none }

  -- What is done with the newly acknowledged packets, or with the error.
  unfoldable pub finish_ack : Handler → AckFrame → ℕ → Result SentError (List Packet) → Outcome
  finish_ack h ack now (err e) = fails_with h e
  finish_ack h ack now (ok acked) =
      let detected = detect_lost_packets (all_acked h acked) now in
      let collected = garbage_collect_skipped_packets (update_loss_detection_alarm detected) in
      succeeds record collected {
        stop_waiting_manager =
            stop_waiting_received_ack collected.stop_waiting_manager ack.largest_acked;
      }

  -- ReceivedAck from the point on where the ACK has new packets.
  unfoldable pub process_ack : Handler → AckFrame → ℕ → ℕ → Outcome
  process_ack h ack rcv_time now =
      if any_acked (acks_packet ack) h.skipped_packets
      then fails_with h ack_for_skipped_packet
      else (let timed = maybe_update_rtt h ack.largest_acked ack.delay rcv_time now in
          finish_ack timed ack now (
            determine_newly_acked_packets ack.lowest_acked ack.largest_acked ack.ack_ranges
              timed.packet_history))

  unfoldable pub received_ack : Handler → AckFrame → ℕ → ℕ → ℕ → Outcome
  received_ack h ack with_packet_number rcv_time now =
      let grouped : Handler = record h {
        congestion = alg.update_group_epoch h.congestion ack.groups ack.epoch;
      } in
      let newest : Handler = record grouped {
        largest_received_packet_with_ack = with_packet_number;
      } in
      if ltb h.last_sent_packet_number ack.largest_acked
      then fails_with h ack_for_unsent_packet
      else if leb with_packet_number h.largest_received_packet_with_ack
      then fails_with grouped duplicate_or_out_of_order_ack
      else if leb ack.largest_acked (largest_in_order_acked h)
      then succeeds newest
      else process_ack (record newest { largest_acked = ack.largest_acked }) ack rcv_time now

  unfoldable pub finish_close_path : Handler → Result SentError (List Packet) → Outcome
  finish_close_path h (err e) = fails_with h e
  finish_close_path h (ok acked) =
      succeeds (garbage_collect_skipped_packets (set_inflight_as_lost (all_acked h acked)))

  unfoldable pub received_close_path : Handler → ClosePathFrame → ℕ → Outcome
  received_close_path h f with_packet_number =
      let newest : Handler = record h { largest_received_packet_with_ack = with_packet_number } in
      if ltb h.last_sent_packet_number f.largest_acked
      then fails_with h ack_for_unsent_packet
      else if leb with_packet_number h.largest_received_packet_with_ack
      then fails_with h duplicate_or_out_of_order_ack
      else if any_acked (close_path_acks_packet f) h.skipped_packets
      then fails_with newest ack_for_skipped_packet
      else finish_close_path newest (
          determine_newly_acked_packets f.lowest_acked f.largest_acked f.ack_ranges
            h.packet_history)

  unfoldable pub queue_rto : Handler → Packet → Handler
  queue_rto h p =
      let queued = queue_packet_for_retransmission h p in
      congestion_lost (record queued { losses = add_u64 queued.losses 1 }) p

  -- `n` times the oldest packet, as long as there is one.
  unfoldable pub retransmit_oldest : ℕ → Handler → Handler
  retransmit_oldest zero h = h
  retransmit_oldest (suc n) h = elim h.packet_history [
    | [] ↦ h
    | p ∷ _ ↦ retransmit_oldest n (queue_rto h p)
  ]

  abbrev pub timed_out : Handler → Handler
  timed_out h = record h { congestion = alg.on_retransmission_timeout h.congestion true }

  -- Each round removes a packet, so that the length of the history is rounds enough.
  unfoldable pub retransmit_all_packets : Handler → Handler
  retransmit_all_packets h = timed_out (retransmit_oldest (length h.packet_history) h)

  unfoldable pub retransmit_oldest_two_packets : Handler → Handler
  retransmit_oldest_two_packets h = timed_out (retransmit_oldest 2 h)

  unfoldable pub last_packet : List Packet → Option Packet
  last_packet [] = none
  last_packet (p ∷ []) = some p
  last_packet (p ∷ q ∷ rest) = last_packet (q ∷ rest)

  unfoldable pub retransmit_tlp : Handler → Handler
  retransmit_tlp h = elim (last_packet h.packet_history) [
    | none ↦ h
    | some p ↦ queue_packet_for_retransmission h p
  ]

  unfoldable pub has_outstanding_retransmittable_packet : List Packet → Bool
  has_outstanding_retransmittable_packet [] = false
  has_outstanding_retransmittable_packet (p ∷ rest) =
      if is_retransmittable p then true else has_outstanding_retransmittable_packet rest

  -- A tail loss probe.
  unfoldable pub tlp_fired : Handler → Handler
  tlp_fired h =
      let probed = retransmit_tlp h in record probed { tlp_count = (probed.tlp_count + 1) % 2 ^ 32 }

  -- A retransmission timeout. `on_rto_callback` says whether the path may have failed; it is constantly
  -- false where the code has no callback.
  unfoldable pub rto_fired : (ℕ → Bool) → Handler → Handler
  rto_fired on_rto_callback h =
      let queued =
        if on_rto_callback h.last_sent_time
        then retransmit_all_packets h
        else retransmit_oldest_two_packets h in
      record queued { rto_count = (queued.rto_count + 1) % 2 ^ 32 }

  -- What OnAlarm does before the alarm is set again.
  unfoldable pub alarm_fired : (ℕ → Bool) → Handler → ℕ → Handler
  alarm_fired on_rto_callback h now = elim h.loss_time [
    | some t ↦ detect_lost_packets h now
    | none ↦
        if ltb h.tlp_count max_tail_loss_probes then tlp_fired h else rto_fired on_rto_callback h
  ]

  unfoldable pub on_alarm : (ℕ → Bool) → Handler → ℕ → Handler
  on_alarm on_rto_callback h now =
      if has_outstanding_retransmittable_packet h.packet_history
      then update_loss_detection_alarm (alarm_fired on_rto_callback h now)
      else record h { alarm = none }

  unfoldable pub dequeue_packet_for_retransmission : Handler → Option Packet × Handler
  dequeue_packet_for_retransmission h = elim h.retransmission_queue [
    | [] ↦ (none, h)
    | p ∷ rest ↦ (
      some p,
      record h { retransmission_queue = rest; retransmissions = add_u64 h.retransmissions 1 },
    )
  ]

  unfoldable pub duplicate_packet : Handler → Packet → Handler
  duplicate_packet h p = record h { retransmission_queue = h.retransmission_queue ++ (p ∷ []) }

  unfoldable pub handler_stop_waiting_frame : Handler → Bool → Option ℕ × Handler
  handler_stop_waiting_frame h force =
      let (frame, manager) = get_stop_waiting_frame h.stop_waiting_manager force in
      (frame, record h { stop_waiting_manager = manager })

  unfoldable pub sending_allowed : Handler → Bool
  sending_allowed h =
      let congestion_limited = ltb (alg.get_congestion_window h.congestion) h.bytes_in_flight in
      let max_tracked_limited =
        leb max_tracked_sent_packets (length h.retransmission_queue + length h.packet_history) in
      not max_tracked_limited && (not congestion_limited || ltb 0 (length h.retransmission_queue))
