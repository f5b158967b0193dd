-- ===== src/AckHandler/Sent/Taking.antt =====
-- Where ReceivedAck and ReceivedClosePath move the packets.
use mpquic_sbd.Base.{
  ℕ, ◌≡◌, ◌≢◌, refl, sym, ◌∙◌, ap, subst, Bool, true, false, inl, inr, ◌⊎◌, List, [], ◌++◌, none,
  some, ok, ltb, leb, if◌then◌else◌, Bool-cases, arith,
}
use mathlib.Core.List.{Perm}
use mathlib.Core.List.Perm
use mpquic_sbd.Wire.Ack.{AckFrame, acks_packet, validate_ack_ranges, last_first}
use mpquic_sbd.Wire.Ack.Acked.{NoWrap}
use mpquic_sbd.AckHandler.Packet.{Packet}
use mpquic_sbd.AckHandler.Sent
use mpquic_sbd.AckHandler.Sent.{
  SendAlgorithm, SentError, ClosePathFrame, determine_newly_acked_packets,
}
use mpquic_sbd.AckHandler.Sent.Acked.{having, determine_newly_acked_packets-having}
use mpquic_sbd.AckHandler.Sent.Removal.{Sub, Sub-having}
use mpquic_sbd.AckHandler.Sent.Handler
use mpquic_sbd.AckHandler.Sent.Handler.{Handler}
use mpquic_sbd.AckHandler.Sent.InFlight.{
  Inv, held, Moves, trans-Moves, all_acked-Moves, detect_lost_packets-Moves,
  set_inflight_as_lost-Moves, maybe_update_rtt-Moves, update_loss_detection_alarm-Moves,
}

-- What ParseAckFrame promises of a frame.
pub record IsParsed (f : AckFrame) : Type 0 where
  pub no_wrap : NoWrap f.ack_ranges
  pub valid : validate_ack_ranges f ≡ true
  pub lowest : (f.ack_ranges ≡ []) ⊎ (f.lowest_acked ≡ last_first f.ack_ranges)

module _ (alg : SendAlgorithm) where
  finish_ack-Moves :
      (h : Handler alg) (ack : AckFrame) (now : ℕ) (acked : List Packet)
      → Inv alg h
      → Sub acked h.packet_history
      → Moves alg h (Handler.finish_ack alg h ack now (ok acked)).handler acked
  unfolding Handler.finish_ack Handler.garbage_collect_skipped_packets
  finish_ack-Moves h ack now acked i s =
      let m = all_acked-Moves alg h acked i s in
      let detected = detect_lost_packets-Moves alg (Handler.all_acked alg h acked) now m.inv in
      let alarmed = update_loss_detection_alarm-Moves alg _ detected.inv in
      let all = trans-Moves alg h _ _ acked m (trans-Moves alg _ _ _ [] detected alarmed) in
      record { inv = all.inv; last = all.last; acked = all.acked; perm = all.perm }

  finish_ack_error :
      (h : Handler alg) (ack : AckFrame) (now : ℕ) (acked : List Packet)
      → (Handler.finish_ack alg h ack now (ok acked)).error ≡ none
  unfolding Handler.finish_ack
  finish_ack_error h ack now acked = refl

  trans_taken :
      (h h' h'' : Handler alg) (out out' : List Packet)
      → Moves alg h h' []
      → Moves alg h' h'' out
      → out ≡ out'
      → Moves alg h h'' out'
  trans_taken h h' h'' out out' m n e =
      subst (λ o. Moves alg h h'' o) e
        record {
          inv = n.inv;
          last = n.last ∙ m.last;
          acked = n.acked ∙ m.acked;
          perm = Perm.trans n.perm m.perm;
        }

  -- Either the ACK acknowledges a skipped packet, or it takes out the packets that it acknowledges.
  abbrev Processed : Handler alg → AckFrame → Handler.Outcome alg → Type 0
  Processed h ack out =
      ((out.handler ≡ h) × (out.error ≡ some Sent.ack_for_skipped_packet))
      ⊎ (Moves alg h out.handler (having (acks_packet ack) h.packet_history) × (out.error ≡ none))

  either-Processed :
      (b : Bool) (h : Handler alg) (ack : AckFrame) (x y : Handler.Outcome alg)
      → Processed h ack x
      → Processed h ack y
      → Processed h ack (if b then x else y)
  either-Processed true h ack x y px py = px
  either-Processed false h ack x y px py = py

  maybe_update_rtt_history :
      (h : Handler alg) (largest delay received now : ℕ)
      → (Handler.maybe_update_rtt alg h largest delay received now).packet_history
        ≡ h.packet_history
  unfolding Handler.maybe_update_rtt
  maybe_update_rtt_history h largest delay received now = ground arith

  process_ack-Processed :
      (h : Handler alg) (ack : AckFrame) (rcv_time now : ℕ)
      → Inv alg h
      → IsParsed ack
      → Processed h ack (Handler.process_ack alg h ack rcv_time now)
  unfolding Handler.process_ack
  process_ack-Processed h ack rcv_time now i v =
      let timed = Handler.maybe_update_rtt alg h ack.largest_acked ack.delay rcv_time now in
      let m = maybe_update_rtt-Moves alg h ack.largest_acked ack.delay rcv_time now i in
      let same = maybe_update_rtt_history h ack.largest_acked ack.delay rcv_time now in
      let acked = having (acks_packet ack) timed.packet_history in
      let found =
        determine_newly_acked_packets-having ack timed.packet_history v.no_wrap v.valid v.lowest
          m.inv.increasing in
      let n =
        finish_ack-Moves timed ack now acked m.inv
          (Sub-having (acks_packet ack) timed.packet_history) in
      either-Processed (Handler.any_acked alg (acks_packet ack) h.skipped_packets) h ack _ _
        (inl (refl, refl))
        (subst (λ r. Processed h ack (Handler.finish_ack alg timed ack now r)) (sym found)
          (inr (
            trans_taken h timed _ acked _ m n (ap (having (acks_packet ack)) same),
            finish_ack_error timed ack now acked,
          )))

  -- The packets that an ACK takes out of the handler: none if it has no new largest packet.
  abbrev pub taken : Handler alg → AckFrame → List Packet
  taken h ack =
      if leb ack.largest_acked (Handler.largest_in_order_acked alg h)
      then []
      else having (acks_packet ack) h.packet_history

  -- Whatever ReceivedAck returns, it keeps the invariant; if it returns no error, it takes out `taken`.
  abbrev Taken : Handler alg → AckFrame → Handler.Outcome alg → Type 0
  Taken h ack out =
      Inv alg out.handler
      × (out.handler.last_sent_packet_number ≡ h.last_sent_packet_number)
      × ((out.error ≢ none) ⊎ Perm (taken h ack ++ held alg out.handler) (held alg h))

  pub received_ack-Taken :
      (h : Handler alg) (ack : AckFrame) (with rcv_time now : ℕ)
      → Inv alg h
      → IsParsed ack
      → Taken h ack (Handler.received_ack alg h ack with rcv_time now)
  unfolding Handler.received_ack
  received_ack-Taken h ack with rcv_time now i v =
      elim (Bool-cases (ltb h.last_sent_packet_number ack.largest_acked)) [
        | inl e ↦ rw (Handler.received_ack, e) (i, refl, inl (λ c. ground arith))
        | inr e ↦ elim (Bool-cases (leb with h.largest_received_packet_with_ack)) [
          | inl e2 ↦ rw (Handler.received_ack, e, e2) (i, refl, inl (λ c. ground arith))
          | inr e2 ↦
              elim (Bool-cases (leb ack.largest_acked (Handler.largest_in_order_acked alg h))) [
                | inl e3 ↦
                    rw (Handler.received_ack, e, e2, e3) (i, refl, inr (Perm.refl (held alg h)))
                | inr e3 ↦
                    rw (Handler.received_ack, e, e2, e3)
                      (settled (process_ack-Processed newest ack rcv_time now i v))
              ]
        ]
      ]
    where
      newest : Handler alg
      newest = record h {
        congestion = alg.update_group_epoch h.congestion ack.groups ack.epoch;
        largest_received_packet_with_ack = with;
        largest_acked = ack.largest_acked;
      }

      settled :
          {out : Handler.Outcome alg}
          → Processed newest ack out
          → Inv alg out.handler
            × (out.handler.last_sent_packet_number ≡ h.last_sent_packet_number)
            × ((out.error ≢ none)
                ⊎ Perm
                    (having (acks_packet ack) h.packet_history ++ held alg out.handler)
                    (held alg h))
      settled (inl (same, failed)) = (
        subst (λ (z : Handler alg). Inv alg z) (sym same) i,
        ap (λ (z : Handler alg). z.last_sent_packet_number) same,
        inl (λ c. ground (arith, failed)),
      )
      settled (inr (m, fine)) = (m.inv, m.last, inr m.perm)

  abbrev pub as_ack : ClosePathFrame → AckFrame
  as_ack f = record {
    path_id = 0;
    largest_acked = f.largest_acked;
    lowest_acked = f.lowest_acked;
    ack_ranges = f.ack_ranges;
    delay = 0;
    groups = 0;
    epoch = 0;
  }

  finish_close_path-Inv :
      (h : Handler alg) (acked : List Packet)
      → Inv alg h
      → Sub acked h.packet_history
      → Inv alg (Handler.finish_close_path alg h (ok acked)).handler
  unfolding Handler.finish_close_path Handler.garbage_collect_skipped_packets
  finish_close_path-Inv h acked i s =
      (set_inflight_as_lost-Moves alg (Handler.all_acked alg h acked)
        (all_acked-Moves alg h acked i s).inv).inv

  either-Inv :
      (b : Bool) (x y : Handler.Outcome alg)
      → Inv alg x.handler
      → Inv alg y.handler
      → Inv alg (if b then x else y).handler
  either-Inv true x y ix iy = ix
  either-Inv false x y ix iy = iy

  pub received_close_path-Inv :
      (h : Handler alg) (f : ClosePathFrame) (with : ℕ)
      → Inv alg h
      → IsParsed (as_ack f)
      → Inv alg (Handler.received_close_path alg h f with).handler
  unfolding Handler.received_close_path
  received_close_path-Inv h f with i v =
      either-Inv (ltb h.last_sent_packet_number f.largest_acked) _ _ i (
        either-Inv (leb with h.largest_received_packet_with_ack) _ _ i (
          either-Inv (Handler.any_acked alg (Sent.close_path_acks_packet f) h.skipped_packets) _ _ i
            (subst (λ r. Inv alg (Handler.finish_close_path alg newest r).handler) (sym found)
              (finish_close_path-Inv newest (having (acks_packet (as_ack f)) h.packet_history) i
                (Sub-having _ h.packet_history)))))
    where
      newest : Handler alg
      newest = record h { largest_received_packet_with_ack = with }

      found :
          determine_newly_acked_packets f.lowest_acked f.largest_acked f.ack_ranges h.packet_history
          ≡ ok (having (acks_packet (as_ack f)) h.packet_history)
      found =
          determine_newly_acked_packets-having (as_ack f) h.packet_history v.no_wrap v.valid
            v.lowest i.increasing
