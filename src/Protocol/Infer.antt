-- ===== src/Protocol/Infer.antt =====
-- Which packet numbers the receiver recovers from their low bytes.
use mpquic_sbd.Base.{ℕ, ◌+◌, ◌*◌, ◌%◌, ◌^◌, ◌≤◌, ◌<◌, ◌≡◌, refl, ◌≢◌, arith}
use mpquic_sbd.Protocol.{
  PacketNumberLen, invalid, len1, len2, len4, len6, byte_count, infer_packet_number,
  get_packet_number_length_for_public_header,
}

-- For numbers below 2 ^ 62 and a length that is not invalid, the receiver recovers from its low bytes
-- a packet number that is less than half an epoch away from the one it expects next.
pub infer-truncated :
    (l : PacketNumberLen) (last pn : ℕ)
    → l ≢ invalid
    → last < 2 ^ 62
    → pn < 2 ^ 62
    → 2 * pn < 2 * (last + 1) + 2 ^ (byte_count l * 8)
    → 2 * (last + 1) < 2 * pn + 2 ^ (byte_count l * 8)
    → infer_packet_number l last (pn % 2 ^ (byte_count l * 8)) ≡ pn
unfolding infer_packet_number
infer-truncated invalid last pn ne hl hp lo hi = absurd (ne refl)
infer-truncated len1 last pn ne hl hp lo hi = ground arith
infer-truncated len2 last pn ne hl hp lo hi = ground arith
infer-truncated len4 last pn ne hl hp lo hi = ground arith
infer-truncated len6 last pn ne hl hp lo hi = ground arith

length_for_public_header_window :
    (pn least_unacked last : ℕ) (l : PacketNumberLen)
    → get_packet_number_length_for_public_header pn least_unacked ≡ l
    → least_unacked ≤ pn
    → pn < 2 ^ 62
    → pn < least_unacked + 2 ^ 47
    → least_unacked ≤ last + 1
    → last + 1 < pn + 2 ^ 15
    → (l ≢ invalid)
      × (2 * pn < 2 * (last + 1) + 2 ^ (byte_count l * 8))
      × (2 * (last + 1) < 2 * pn + 2 ^ (byte_count l * 8))
unfolding get_packet_number_length_for_public_header
length_for_public_header_window pn least_unacked last invalid e hu hp hd ha hr =
    absurd (ground arith)
length_for_public_header_window pn least_unacked last len1 e hu hp hd ha hr = absurd (ground arith)
length_for_public_header_window pn least_unacked last len2 e hu hp hd ha hr = ground arith
length_for_public_header_window pn least_unacked last len4 e hu hp hd ha hr = ground arith
length_for_public_header_window pn least_unacked last len6 e hu hp hd ha hr = ground arith

-- A packet number sent at the length chosen for the public header is recovered by a receiver that
-- has seen all packets below the sender's least unacknowledged one and is less than 2 ^ 15 packets
-- ahead, as long as fewer than 2 ^ 47 packets are in flight and the number is below 2 ^ 61.
pub infer-get_packet_number_length_for_public_header :
    (pn least_unacked last : ℕ)
    → least_unacked ≤ pn
    → pn < 2 ^ 61
    → pn < least_unacked + 2 ^ 47
    → least_unacked ≤ last + 1
    → last + 1 < pn + 2 ^ 15
    → let l = get_packet_number_length_for_public_header pn least_unacked in
      infer_packet_number l last (pn % 2 ^ (byte_count l * 8)) ≡ pn
infer-get_packet_number_length_for_public_header pn least_unacked last hu hp hd ha hr =
    let l = get_packet_number_length_for_public_header pn least_unacked in
    let (ne, lo, hi) =
      length_for_public_header_window pn least_unacked last l refl hu (omega arith) hd ha hr in
    infer-truncated l last pn ne (omega arith) (omega arith) lo hi
