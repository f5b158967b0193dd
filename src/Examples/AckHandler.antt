-- ===== src/Examples/AckHandler.antt =====
-- The receiver at concrete values.
use mpquic_sbd.Base.{
  ◌≡◌, refl, ◌⊎◌, true, false, ◌&&◌, ◌||◌, List, [], ◌∷◌, none, some, ok, arith, ltb, ◌==◌,
}
use mpquic_sbd.Base.Int.{pos}
use mpquic_sbd.Wire.Ack.{acks_packet}
use mpquic_sbd.AckHandler.History
use mpquic_sbd.AckHandler.History.{
  PacketInterval, History, insert_packet, merge_prev, delete_up_to, delete_ranges, delete_step,
}
use mpquic_sbd.AckHandler.History.Invariant.{IsValid, received_packet-IsValid, delete_up_to-IsValid}
use mpquic_sbd.AckHandler.History.Contents.{
  contains, contains-received_packet, contains-delete_up_to,
}
use mpquic_sbd.AckHandler.History.Canonical.{received_packet_comm, received_packet_duplicate}
use mpquic_sbd.AckHandler.Received
use mpquic_sbd.AckHandler.Received.{
  Handler, new_received_packet_handler, get_ack_frame, ack_frame, acknowledged, HandlerError,
  observe, maybe_queue_ack, queue_or_arm, asks_for_ack, last_ack_asks, alarm_passed,
}
use mpquic_sbd.AckHandler.Received.Acknowledges.{
  Inv, Answer, get_ack_frame_total, acks_packet-get_ack_frame,
}
use mpquic_sbd.AckHandler.Received.Reachable.{receives, Reach, starts, IsKept, Reach-IsKept}

-- Packets 1 to 4 and 7 to 9 have arrived.
abbrev history : History
history = record {
  ranges = record { start = 7; end = 9 } ∷ record { start = 1; end = 4 } ∷ [];
  lowest_in_received_packet_numbers = 0;
}

history-IsValid : IsValid history
history-IsValid =
    (omega arith, omega arith, omega arith, (omega arith, omega arith, omega arith, tt))

abbrev with_ranges : List PacketInterval → History
with_ranges ranges = record { ranges = ranges; lowest_in_received_packet_numbers = 0 }

abbrev with_5 : History
with_5 = with_ranges (record { start = 7; end = 9 } ∷ record { start = 1; end = 5 } ∷ [])

abbrev with_6 : History
with_6 = with_ranges (record { start = 6; end = 9 } ∷ record { start = 1; end = 4 } ∷ [])

abbrev with_both : History
with_both = with_ranges (record { start = 1; end = 9 } ∷ [])

receives_5 : History.received_packet history 5 ≡ ok with_5
unfolding History.received_packet insert_packet merge_prev
receives_5 = refl

receives_6 : History.received_packet history 6 ≡ ok with_6
unfolding History.received_packet insert_packet merge_prev
receives_6 = refl

receives_5_6 : History.received_packet with_5 6 ≡ ok with_both
unfolding History.received_packet insert_packet merge_prev
receives_5_6 = refl

receives_6_5 : History.received_packet with_6 5 ≡ ok with_both
unfolding History.received_packet insert_packet merge_prev
receives_6_5 = refl

receives_8 : History.received_packet history 8 ≡ ok history
unfolding History.received_packet insert_packet merge_prev
receives_8 = refl

contains_8 : contains 8 history ≡ true
unfolding contains
contains_8 = refl

with_5-IsValid : IsValid with_5
with_5-IsValid =
    received_packet-IsValid history with_5 5 (omega arith) (omega arith) history-IsValid receives_5

deleted-IsValid : IsValid (delete_up_to history 2)
deleted-IsValid = delete_up_to-IsValid history 2 history-IsValid

contains-received_packet_example : contains 5 with_5 ≡ ((5 == 5) || contains 5 history)
contains-received_packet_example =
    contains-received_packet history with_5 5 5 (omega arith) (omega arith) history-IsValid
      receives_5

contains-delete_up_to_example :
    contains 3 (delete_up_to history 2) ≡ (ltb 2 3 && contains 3 history)
contains-delete_up_to_example = contains-delete_up_to history 2 3 history-IsValid

received_packet_comm_example : with_both ≡ with_both
received_packet_comm_example =
    received_packet_comm history with_5 with_both with_6 with_both 5 6 (omega arith) (omega arith)
      (omega arith) (omega arith) history-IsValid receives_5 receives_5_6 receives_6 receives_6_5

history_duplicate : history ≡ history
history_duplicate =
    received_packet_duplicate history history 8 (omega arith) (omega arith) history-IsValid
      contains_8 receives_8

-- A handler that has received packets 1 and 3.
abbrev new : Handler
new = new_received_packet_handler (pos 39)

abbrev after_1 : Handler
after_1 = (Received.received_packet new 1 true 0).after

abbrev after_3 : Handler
after_3 = (Received.received_packet after_1 3 true 10).after

Reach-after_3 : Reach (pos 39) false after_3
unfolding Received.received_packet new_received_packet_handler observe History.received_packet
    insert_packet History.new_received_packet_history maybe_queue_ack queue_or_arm asks_for_ack
    last_ack_asks
Reach-after_3 = receives 3 true 10 (receives 1 true 0 starts (omega arith)) (omega arith)

after_3-Inv : Inv after_3
after_3-Inv = Reach-IsKept Reach-after_3

Reach-IsKept_example : IsKept false after_3
Reach-IsKept_example = Reach-IsKept Reach-after_3

get_ack_frame_total_example :
    ((after_3.ack_queued || alarm_passed after_3.ack_alarm 20) ≡ false)
      × (get_ack_frame after_3 1 2 20 ≡ ok (none, after_3))
    ⊎ Answer after_3 1 2 20
get_ack_frame_total_example = get_ack_frame_total after_3 1 2 20 after_3-Inv

acknowledges_3 :
    get_ack_frame after_3 1 2 20
    ≡ ok (some (ack_frame after_3 1 2), acknowledged after_3 (ack_frame after_3 1 2))
unfolding get_ack_frame Received.received_packet new_received_packet_handler observe
    History.received_packet insert_packet maybe_queue_ack queue_or_arm asks_for_ack last_ack_asks
    History.new_received_packet_history
acknowledges_3 = refl

acks_packet-get_ack_frame_example :
    acks_packet (ack_frame after_3 1 2) 2 ≡ contains 2 after_3.packet_history
acks_packet-get_ack_frame_example =
    acks_packet-get_ack_frame after_3 (acknowledged after_3 (ack_frame after_3 1 2)) 1 2 20 2
      (ack_frame after_3 1 2) after_3-Inv acknowledges_3
