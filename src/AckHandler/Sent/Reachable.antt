-- ===== src/AckHandler/Sent/Reachable.antt =====
-- The calls on the handler, from a new one on, and what they keep.
use mpquic_sbd.Base.{ℕ, ◌^◌, ◌<◌, ◌≡◌, refl, Bool, List, [], ◌∷◌, Option, none, some, ok, arith}
use mpquic_sbd.Protocol.{add_u64}
use mpquic_sbd.Wire.Ack.{AckFrame}
use mpquic_sbd.AckHandler.Packet.{Packet}
use mpquic_sbd.AckHandler.Sent.{SendAlgorithm, ClosePathFrame}
use mpquic_sbd.AckHandler.Sent.Handler
use mpquic_sbd.AckHandler.Sent.Handler.{Handler}
use mpquic_sbd.AckHandler.Sent.InFlight.{Inv, set_inflight_as_lost-Moves, on_alarm-Moves}
use mpquic_sbd.AckHandler.Sent.Sending.{sent_packet-Inv}
use mpquic_sbd.AckHandler.Sent.Taking.{
  IsParsed, as_ack, received_ack-Taken, received_close_path-Inv,
}

module _ (alg : SendAlgorithm) where
  -- The calls on the handler. Packets are shorter than 2 ^ 32 bytes, and frames are parsed ones.
  pub data Step : Handler alg → Handler alg → Type 0 where
    sends :
        {h h' : Handler alg} (p : Packet) (now : ℕ)
        → p.length < 2 ^ 32
        → Handler.sent_packet alg h p now ≡ ok h'
        → Step h h'
    receives_ack :
        {h : Handler alg} (ack : AckFrame) (with rcv_time now : ℕ)
        → IsParsed ack
        → Step h (Handler.received_ack alg h ack with rcv_time now).handler
    receives_close_path :
        {h : Handler alg} (f : ClosePathFrame) (with : ℕ)
        → IsParsed (as_ack alg f)
        → Step h (Handler.received_close_path alg h f with).handler
    alarms :
        {h : Handler alg} (failed : ℕ → Bool) (now : ℕ) → Step h (Handler.on_alarm alg failed h now)
    gives_up : {h : Handler alg} → Step h (Handler.set_inflight_as_lost alg h)
    dequeues : {h : Handler alg} → Step h (Handler.dequeue_packet_for_retransmission alg h).1
    duplicates : {h : Handler alg} (p : Packet) → Step h (Handler.duplicate_packet alg h p)
    stops_waiting :
        {h : Handler alg} (force : Bool) → Step h (Handler.handler_stop_waiting_frame alg h force).1

  pub data Reach : Handler alg → Type 0 where
    starts : (congestion : alg.State) → Reach (Handler.new_sent_packet_handler alg congestion)
    steps : {h h' : Handler alg} → Reach h → Step h h' → Reach h'

  dequeue-Inv :
      (h : Handler alg) → Inv alg h → Inv alg (Handler.dequeue_packet_for_retransmission alg h).1
  unfolding Handler.dequeue_packet_for_retransmission
  dequeue-Inv h i = by_queue h.retransmission_queue
    where
      by_queue :
          (q : List Packet)
          → Inv alg
              (elim q as (λ _. Option Packet × Handler alg) [
                | [] ↦ (none, h)
                | p ∷ rest ↦ (
                  some p,
                  record h {
                    retransmission_queue = rest;
                    retransmissions = add_u64 h.retransmissions 1;
                  },
                )
              ]).1
      by_queue [] = i
      by_queue (p ∷ rest) = i

  Step-Inv : {h h' : Handler alg} → Step h h' → Inv alg h → Inv alg h'
  unfolding Handler.duplicate_packet Handler.handler_stop_waiting_frame
  Step-Inv (sends {h} {h'} p now b e) i = sent_packet-Inv alg h h' p now i b e
  Step-Inv (receives_ack {h} ack with rcv_time now v) i =
      (received_ack-Taken alg h ack with rcv_time now i v).0
  Step-Inv (receives_close_path {h} f with v) i = received_close_path-Inv alg h f with i v
  Step-Inv (alarms {h} failed now) i = (on_alarm-Moves alg failed h now i).inv
  Step-Inv (gives_up {h}) i = (set_inflight_as_lost-Moves alg h i).inv
  Step-Inv (dequeues {h}) i = dequeue-Inv h i
  Step-Inv (duplicates p) i = i
  Step-Inv (stops_waiting force) i = i

  -- In every state that calls on a new handler reach, where packets are shorter than 2 ^ 32 bytes and
  -- frames are parsed ones, the packet numbers of the history increase up to at most the last one sent,
  -- the history has at most 5000 packets, and the bytes in flight are the sum of their lengths.
  pub Reach-Tracked : {h : Handler alg} → Reach h → Inv alg h
  unfolding Handler.new_sent_packet_handler
  Reach-Tracked (starts c) = record { increasing = tt; sane = tt; few = omega arith; flying = refl }
  Reach-Tracked (steps r s) = Step-Inv s (Reach-Tracked r)
