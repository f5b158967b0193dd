-- ===== src/AckHandler/Sent/Sending.antt =====
-- SentPacket keeps the invariant of the handler.
use mpquic_sbd.Base.{
  ℕ, ◌+◌, ◌^◌, ◌≤◌, ◌<◌, ◌≡◌, refl, sym, subst, List, [], ◌∷◌, ◌++◌, ok, length, All, arith,
  length-append,
}
use mpquic_sbd.Protocol.{add_u64}
use mpquic_sbd.AckHandler.Packet.{Packet, Frame, strip_non_retransmittable_frames}
use mpquic_sbd.AckHandler.Sent.{SendAlgorithm}
use mpquic_sbd.AckHandler.Sent.Acked.{Increasing}
use mpquic_sbd.AckHandler.Sent.Removal.{total}
use mpquic_sbd.AckHandler.Sent.Handler
use mpquic_sbd.AckHandler.Sent.Handler.{Handler}
use mpquic_sbd.AckHandler.Sent.InFlight.{
  Sane, Tracked, Inv, update_loss_detection_alarm-Moves, total_bound,
}

Increasing-append :
    (lo last : ℕ) (l : List Packet) (x : Packet)
    → Increasing lo l
    → All (Sane last) l
    → last < x.packet_number
    → lo ≤ x.packet_number
    → Increasing lo (l ++ (x ∷ []))
Increasing-append lo last [] x i a h k = (k, tt)
Increasing-append lo last (p ∷ rest) x i a h k =
    (i.0, Increasing-append (p.packet_number + 1) last rest x i.1 a.1 h (omega (arith, a.0)))

Sane-append :
    (last : ℕ) (l : List Packet) (x : Packet)
    → All (Sane last) l
    → last < x.packet_number
    → x.length < 2 ^ 32
    → All (Sane x.packet_number) (l ++ (x ∷ []))
Sane-append last [] x a h k = ((omega arith, k), tt)
Sane-append last (p ∷ rest) x a h k = ((omega (arith, a.0), a.0.1), Sane-append last rest x a.1 h k)

Sane-mono : (m n : ℕ) (l : List Packet) → m ≤ n → All (Sane m) l → All (Sane n) l
Sane-mono m n [] h a = tt
Sane-mono m n (p ∷ rest) h a = ((omega (arith, a.0), a.0.1), Sane-mono m n rest h a.1)

total-append : (l : List Packet) (x : Packet) → total (l ++ (x ∷ [])) ≡ total l + x.length
total-append [] x = omega arith
total-append (p ∷ rest) x = omega (arith, total-append rest x)

Tracked-append :
    (last : ℕ) (l : List Packet) (bytes : ℕ) (x : Packet)
    → Tracked last l bytes
    → last < x.packet_number
    → x.length < 2 ^ 32
    → length l + 1 ≤ 5000
    → Tracked x.packet_number (l ++ (x ∷ [])) (add_u64 bytes x.length)
Tracked-append last l bytes x t h k few = record {
  increasing = Increasing-append 0 last l x t.increasing t.sane h (omega arith);
  sane = Sane-append last l x t.sane h k;
  few = omega (arith, length-append l (x ∷ []));
  flying = omega (arith, total-append l x, t.flying, total_bound last l t.sane, t.few);
}

Tracked-mono :
    (last next : ℕ) (l : List Packet) (bytes : ℕ)
    → last ≤ next
    → Tracked last l bytes
    → Tracked next l bytes
Tracked-mono last next l bytes h t = record {
  increasing = t.increasing;
  sane = Sane-mono last next l h t.sane;
  few = t.few;
  flying = t.flying;
}

module _ (alg : SendAlgorithm) where
  track-Inv :
      (h : Handler alg) (last : ℕ) (p : Packet) (now : ℕ) (frames : List Frame)
      → Tracked last h.packet_history h.bytes_in_flight
      → h.last_sent_packet_number ≡ p.packet_number
      → last < p.packet_number
      → p.length < 2 ^ 32
      → length h.packet_history + 1 ≤ 5000
      → Inv alg (Handler.track alg h p now frames)
  unfolding Handler.track
  track-Inv h last p now [] i e a b c =
      Tracked-mono last h.last_sent_packet_number h.packet_history h.bytes_in_flight
        (omega (arith, e, a)) i
  track-Inv h last p now (f ∷ rest) i e a b c =
      subst
        (λ n.
          Tracked n (h.packet_history ++ (record p { send_time = now } ∷ []))
            (add_u64 h.bytes_in_flight p.length))
        (sym e)
        (Tracked-append last h.packet_history h.bytes_in_flight (record p { send_time = now }) i a b
          c)

  track_packet-Inv :
      (h : Handler alg) (p : Packet) (now : ℕ)
      → Inv alg h
      → h.last_sent_packet_number < p.packet_number
      → p.length < 2 ^ 32
      → length h.packet_history + 1 ≤ 5000
      → Inv alg (Handler.track_packet alg h p now)
  unfolding Handler.track_packet
  track_packet-Inv h p now i a b c =
      track-Inv _ h.last_sent_packet_number _ now (strip_non_retransmittable_frames p.frames) i refl
        a b c

  pub sent_packet-Inv :
      (h h' : Handler alg) (p : Packet) (now : ℕ)
      → Inv alg h
      → p.length < 2 ^ 32
      → Handler.sent_packet alg h p now ≡ ok h'
      → Inv alg h'
  unfolding Handler.sent_packet
  sent_packet-Inv h h' p now i b e =
      let tracked = Handler.track_packet alg h p now in
      let t = track_packet-Inv h p now i (ground arith) b (ground arith) in
      let same : Handler.update_loss_detection_alarm alg tracked ≡ h' = ground arith in
      subst (λ (z : Handler alg). Inv alg z) same
        (update_loss_detection_alarm-Moves alg tracked t).inv
