-- ===== src/Congestion/Prr/Bound.antt =====
-- What is sent during a recovery, against what the acknowledgements allow.
use mpquic_sbd.Base.{ℕ, ◌+◌, ◌*◌, ◌^◌, ◌≤◌, ◌<◌, ◌≡◌, ◌⊎◌, inl, inr, arith}
use native.Mathlib.Nat.{mul-le-mul, le_refl, add-mul}
use mpquic_sbd.Protocol.{add_u64}
use mpquic_sbd.Congestion.Prr.{
  PrrSender, prr_on_packet_sent, prr_on_packet_lost, prr_on_packet_acked, time_until_send,
  default_tcp_mss,
}

-- The counters are small enough that no sum and no product wraps.
pub record Small (threshold : ℕ) (p : PrrSender) : Type 0 where
  pub sent : p.bytes_sent_since_loss < 2 ^ 62
  pub delivered : p.bytes_delivered_since_loss < 2 ^ 62
  pub acks : p.ack_count_since_loss < 2 ^ 50
  pub sent_product : p.bytes_sent_since_loss * p.bytes_in_flight_before_loss < 2 ^ 64
  pub delivered_product : p.bytes_delivered_since_loss * threshold < 2 ^ 64

-- A recovery with a slow start threshold. A packet of at most one segment is sent only if
-- TimeUntilSend lets it go at once, and while at least one segment is in flight.
pub data Recovery (threshold in_flight : ℕ) : PrrSender → Type 0 where
  lost : Recovery threshold in_flight (prr_on_packet_lost in_flight)
  acked :
      {p : PrrSender} (n : ℕ)
      → Recovery threshold in_flight p
      → Small threshold p
      → n < 2 ^ 62
      → Recovery threshold in_flight (prr_on_packet_acked p n)
  sent :
      {p : PrrSender} (n window flying : ℕ)
      → Recovery threshold in_flight p
      → Small threshold p
      → n ≤ default_tcp_mss
      → default_tcp_mss ≤ flying
      → time_until_send p window flying threshold ≡ 0
      → Recovery threshold in_flight (prr_on_packet_sent p n)

-- One segment beyond the bytes delivered and a segment for each ACK, or one segment beyond the share of
-- the bytes delivered that the threshold has of the bytes in flight before the loss.
abbrev pub Bounded : ℕ → PrrSender → Type 0
Bounded threshold p =
    (p.bytes_sent_since_loss
      ≤ p.bytes_delivered_since_loss + p.ack_count_since_loss * default_tcp_mss + default_tcp_mss)
    ⊎ (p.bytes_sent_since_loss * p.bytes_in_flight_before_loss
        ≤ p.bytes_delivered_since_loss * threshold
          + default_tcp_mss * p.bytes_in_flight_before_loss)

can_send :
    (p : PrrSender) (window flying threshold : ℕ)
    → Small threshold p
    → default_tcp_mss ≤ flying
    → time_until_send p window flying threshold ≡ 0
    → (p.bytes_sent_since_loss
        ≤ p.bytes_delivered_since_loss + p.ack_count_since_loss * default_tcp_mss)
      ⊎ (p.bytes_sent_since_loss * p.bytes_in_flight_before_loss
          ≤ p.bytes_delivered_since_loss * threshold)
unfolding time_until_send
can_send p window flying threshold small f h =
    ground
      (arith, small.sent, small.delivered, small.acks, small.sent_product, small.delivered_product)

acked-Bounded :
    (threshold n : ℕ) (p : PrrSender)
    → Small threshold p
    → n < 2 ^ 62
    → Bounded threshold p
    → Bounded threshold (prr_on_packet_acked p n)
unfolding prr_on_packet_acked
acked-Bounded threshold n p small b h =
    let more : add_u64 p.bytes_delivered_since_loss n ≡ p.bytes_delivered_since_loss + n =
      omega (arith, small.delivered) in
    let next : add_u64 p.ack_count_since_loss 1 ≡ p.ack_count_since_loss + 1 =
      omega (arith, small.acks) in
    let up : p.bytes_delivered_since_loss ≤ p.bytes_delivered_since_loss + n = omega arith in
    let wider : p.bytes_delivered_since_loss * threshold
        ≤ (p.bytes_delivered_since_loss + n) * threshold =
      mul-le-mul up (le_refl threshold) in
    rw (more, next)
      (elim h [ inl e ↦ inl (omega (arith, e)) | inr e ↦ inr (omega (arith, e, wider)) ])

sent-Bounded :
    (threshold n window flying : ℕ) (p : PrrSender)
    → Small threshold p
    → n ≤ default_tcp_mss
    → default_tcp_mss ≤ flying
    → time_until_send p window flying threshold ≡ 0
    → Bounded threshold (prr_on_packet_sent p n)
unfolding prr_on_packet_sent
sent-Bounded threshold n window flying p small b f h =
    let more : add_u64 p.bytes_sent_since_loss n ≡ p.bytes_sent_since_loss + n =
      omega (arith, small.sent) in
    let segment : n * p.bytes_in_flight_before_loss
        ≤ default_tcp_mss * p.bytes_in_flight_before_loss =
      mul-le-mul b (le_refl p.bytes_in_flight_before_loss) in
    let split : (p.bytes_sent_since_loss + n) * p.bytes_in_flight_before_loss
        ≡ p.bytes_sent_since_loss * p.bytes_in_flight_before_loss
          + n * p.bytes_in_flight_before_loss =
      add-mul _ _ _ in
    rw more (elim (can_send p window flying threshold small f h) [
      | inl e ↦ inl (omega (arith, e))
      | inr e ↦ inr (omega (arith, e, segment, split))
    ])

-- During a recovery in which no counter wraps, packets have at most one segment and are sent only when
-- TimeUntilSend allows it and at least one segment is in flight, the bytes sent are at most one segment
-- beyond those delivered and a segment for each ACK, or at most one segment beyond the share of those
-- delivered that the slow start threshold has of the bytes in flight before the loss.
pub Recovery-Bounded :
    {threshold in_flight : ℕ} {p : PrrSender} → Recovery threshold in_flight p → Bounded threshold p
unfolding prr_on_packet_lost
Recovery-Bounded lost = inl (omega arith)
Recovery-Bounded {threshold} (acked {p} n r small b) =
    acked-Bounded threshold n p small b (Recovery-Bounded r)
Recovery-Bounded {threshold} (sent {p} n window flying r small b f h) =
    sent-Bounded threshold n window flying p small b f h
