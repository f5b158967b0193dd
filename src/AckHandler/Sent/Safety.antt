-- ===== src/AckHandler/Sent/Safety.antt =====
-- Acknowledgements and alarms on a handler that the calls reach.
use mpquic_sbd.Base.{
  ℕ, zero, suc, ◌+◌, ◌≤◌, ◌<◌, ◌≡◌, refl, sym, ◌∙◌, ap, subst, Bool, true, false, inl, inr, List,
  [], ◌∷◌, ◌++◌, none, some, length, if◌then◌else◌, List-cases, arith, length-append,
}
use mathlib.Core.List.{Perm}
use mpquic_sbd.Wire.Ack.{AckFrame}
use mpquic_sbd.AckHandler.Packet.{Packet}
use mpquic_sbd.AckHandler.Sent.{SendAlgorithm}
use mpquic_sbd.AckHandler.Sent.Handler
use mpquic_sbd.AckHandler.Sent.Handler.{Handler}
use mpquic_sbd.AckHandler.Sent.InFlight.{
  held, on_alarm-Moves, retransmit_oldest_none, retransmit_oldest_some,
}
use mpquic_sbd.AckHandler.Sent.Taking.{IsParsed, taken, received_ack-Taken}
use mpquic_sbd.AckHandler.Sent.Reachable.{Reach, Reach-Tracked}

-- If ReceivedAck accepts a parsed ACK in a state that the calls reach, then the packets that it takes out
-- (none for an ACK with no new largest packet, and else those of the history that the ACK acknowledges)
-- and those that are still in flight or wait to be sent again are together the ones that were in flight
-- or waited before.
pub received_ack_takes :
    (alg : SendAlgorithm) (h : Handler alg) (ack : AckFrame) (with rcv_time now : ℕ)
    → Reach alg h
    → IsParsed ack
    → (Handler.received_ack alg h ack with rcv_time now).error ≡ none
    → Perm
        (taken alg h ack ++ held alg (Handler.received_ack alg h ack with rcv_time now).handler)
        (held alg h)
received_ack_takes alg h ack with rcv_time now r v fine =
    elim (received_ack-Taken alg h ack with rcv_time now (Reach-Tracked alg r) v).2 [
      | inl failed ↦ absurd (failed fine)
      | inr p ↦ p
    ]

-- In a state that the calls reach, OnAlarm loses no packet: what is in flight or waits to be sent again
-- afterwards is what was before.
pub on_alarm_keeps :
    (alg : SendAlgorithm) (h : Handler alg) (failed : ℕ → Bool) (now : ℕ)
    → Reach alg h
    → Perm (held alg (Handler.on_alarm alg failed h now)) (held alg h)
on_alarm_keeps alg h failed now r = (on_alarm-Moves alg failed h now (Reach-Tracked alg r)).perm

module _ (alg : SendAlgorithm) where
  abbrev waiting : Handler alg → ℕ
  waiting h = length h.retransmission_queue

  queue_rto-waiting :
      (h : Handler alg) (p : Packet) → waiting (Handler.queue_rto alg h p) ≡ waiting h + 1
  unfolding Handler.queue_rto Handler.queue_packet_for_retransmission
  queue_rto-waiting h p = omega (arith, length-append h.retransmission_queue (p ∷ []))

  oldest_waiting :
      (n : ℕ) (h : Handler alg) → waiting h ≤ waiting (Handler.retransmit_oldest alg n h)
  unfolding Handler.retransmit_oldest
  oldest_waiting zero h = omega arith
  oldest_waiting (suc n) h = elim (List-cases h.packet_history) [
    | inl e ↦ omega (arith, ap waiting (retransmit_oldest_none alg n h e))
    | inr (p, rest, e) ↦ omega (
      arith,
      ap waiting (retransmit_oldest_some alg n h p rest e),
      queue_rto-waiting h p,
      oldest_waiting n (Handler.queue_rto alg h p),
    )
  ]

  oldest_grows :
      (n : ℕ) (h : Handler alg) (p : Packet) (rest : List Packet)
      → h.packet_history ≡ p ∷ rest
      → waiting h < waiting (Handler.retransmit_oldest alg (suc n) h)
  oldest_grows n h p rest e = omega (
    arith,
    ap waiting (retransmit_oldest_some alg n h p rest e),
    queue_rto-waiting h p,
    oldest_waiting n (Handler.queue_rto alg h p),
  )

  either_waits :
      (n : ℕ) (b : Bool) (x y : Handler alg)
      → n < waiting x
      → n < waiting y
      → n < waiting (if b then x else y)
  either_waits n true x y hx hy = hx
  either_waits n false x y hx hy = hy

  last_packet-some :
      (p : Packet) (rest : List Packet)
      → (q : Packet) × (Handler.last_packet alg (p ∷ rest) ≡ some q)
  unfolding Handler.last_packet
  last_packet-some p [] = (p, refl)
  last_packet-some p (q ∷ rest) = last_packet-some q rest

  tlp_grows :
      (h : Handler alg) (p : Packet) (rest : List Packet)
      → h.packet_history ≡ p ∷ rest
      → waiting h < waiting (Handler.tlp_fired alg h)
  unfolding Handler.tlp_fired Handler.retransmit_tlp Handler.queue_packet_for_retransmission
  tlp_grows h p rest e =
      let (q, last) = last_packet-some p rest in
      let found = ap (Handler.last_packet alg) e ∙ last in
      ground (arith, found, length-append h.retransmission_queue (q ∷ []))

  rto_grows :
      (failed : ℕ → Bool) (h : Handler alg) (p : Packet) (rest : List Packet)
      → h.packet_history ≡ p ∷ rest
      → waiting h < waiting (Handler.rto_fired alg failed h)
  unfolding Handler.rto_fired Handler.retransmit_all_packets Handler.retransmit_oldest_two_packets
  rto_grows failed h p rest e =
      either_waits (waiting h) (failed h.last_sent_time) _ _
        (subst (λ n. waiting h < waiting (Handler.retransmit_oldest alg n h)) (sym (ap length e))
          (oldest_grows (length rest) h p rest e))
        (oldest_grows 1 h p rest e)

  outstanding_some :
      (l : List Packet)
      → Handler.has_outstanding_retransmittable_packet alg l ≡ true
      → (p : Packet) × (rest : List Packet) × (l ≡ p ∷ rest)
  unfolding Handler.has_outstanding_retransmittable_packet
  outstanding_some [] h = absurd (ground arith)
  outstanding_some (p ∷ rest) h = (p, rest, refl)

  update_waiting :
      (h : Handler alg) → waiting (Handler.update_loss_detection_alarm alg h) ≡ waiting h
  unfolding Handler.update_loss_detection_alarm
  update_waiting h = ground arith

  fired_grows :
      (failed : ℕ → Bool) (h : Handler alg) (now : ℕ) (p : Packet) (rest : List Packet)
      → h.packet_history ≡ p ∷ rest
      → h.loss_time ≡ none
      → waiting h < waiting (Handler.alarm_fired alg failed h now)
  unfolding Handler.alarm_fired
  fired_grows failed h now p rest e t =
      ground (arith, t, tlp_grows h p rest e, rto_grows failed h p rest e)

-- If a packet in flight is to be sent again and no packet waits to be found lost, OnAlarm queues at least
-- one more packet to be sent again, whatever the probes and timeouts before it.
pub on_alarm_progresses :
    (alg : SendAlgorithm) (h : Handler alg) (failed : ℕ → Bool) (now : ℕ)
    → Handler.has_outstanding_retransmittable_packet alg h.packet_history ≡ true
    → h.loss_time ≡ none
    → length h.retransmission_queue
      < length (Handler.on_alarm alg failed h now).retransmission_queue
unfolding Handler.on_alarm
on_alarm_progresses alg h failed now outstanding none_lost =
    let (p, rest, e) = outstanding_some alg h.packet_history outstanding in
    ground (
      arith,
      fired_grows alg failed h now p rest e none_lost,
      update_waiting alg (Handler.alarm_fired alg failed h now),
    )
