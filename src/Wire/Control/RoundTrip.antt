-- ===== src/Wire/Control/RoundTrip.antt =====
-- What the writers of the control frames write is what their parsers read.
use mpquic_sbd.Base.{
  ℕ, ◌-◌, ◌%◌, ◌^◌, ◌<◌, ◌≤◌, ◌≡◌, refl, ap, ◌≢◌, true, false, List, [], ◌∷◌, ◌++◌, ok, ltb, leb,
  length, arith,
}
use mpquic_sbd.Base.Int.{ℤ}
use mpquic_sbd.Protocol.{PacketNumberLen, invalid, len1, len2, len4, len6, byte_count}
use mpquic_sbd.Wire.Stream.{max_packet_size}
use mpquic_sbd.Wire.Bytes.{
  ByteOrder, big_endian, little_endian, big_bytes, little_bytes, get_byte_order, read_byte,
  uint_bytes, write_uint16, write_uint32, write_uint48,
}
use mpquic_sbd.Wire.Bytes.Order.{
  read_uint_n-uint_bytes, read_full-append, read-write_uint16, read-write_uint32, read-write_uint64,
}
use mpquic_sbd.Wire.Control.{
  WindowUpdateFrame, write_window_update_frame, parse_window_update_frame, RstStreamFrame,
  write_rst_stream_frame, parse_rst_stream_frame, BlockedFrame, write_blocked_frame,
  parse_blocked_frame, GoawayFrame, parse_goaway_frame, write_goaway_frame, ConnectionCloseFrame,
  parse_connection_close_frame, write_connection_close_frame, StopWaitingFrame,
  write_stop_waiting_frame, write_least_unacked_delta, parse_stop_waiting_frame,
}
use mathlib.Core.List.{append_assoc}
use native.Mathlib.Nat.{mod-eq_of_lt}

-- A WINDOW_UPDATE frame whose fields fit their types reads back as it was written, whatever follows it.
pub parse-write_window_update_frame :
    (version : ℤ) (f : WindowUpdateFrame) (rest : List ℕ)
    → f.stream_id < 2 ^ 32
    → f.byte_offset < 2 ^ 64
    → parse_window_update_frame version (write_window_update_frame version f ++ rest) ≡ ok (f, rest)
unfolding parse_window_update_frame write_window_update_frame read_byte
parse-write_window_update_frame version f rest hs hb = simp append_assoc (
    rw
      (
        read-write_uint32 (get_byte_order version) f.stream_id _ hs,
        read-write_uint64 (get_byte_order version) f.byte_offset _ hb,
      )
      refl)

-- A RST_STREAM frame whose fields fit their types reads back as it was written, whatever follows it.
pub parse-write_rst_stream_frame :
    (version : ℤ) (f : RstStreamFrame) (rest : List ℕ)
    → f.stream_id < 2 ^ 32
    → f.byte_offset < 2 ^ 64
    → f.error_code < 2 ^ 32
    → parse_rst_stream_frame version (write_rst_stream_frame version f ++ rest) ≡ ok (f, rest)
unfolding parse_rst_stream_frame write_rst_stream_frame read_byte
parse-write_rst_stream_frame version f rest hs hb he = simp append_assoc (
    rw
      (
        read-write_uint32 (get_byte_order version) f.stream_id _ hs,
        read-write_uint64 (get_byte_order version) f.byte_offset _ hb,
        read-write_uint32 (get_byte_order version) f.error_code _ he,
      )
      refl)

-- A BLOCKED frame whose stream ID fits 32 bits reads back as it was written, whatever follows it.
pub parse-write_blocked_frame :
    (version : ℤ) (f : BlockedFrame) (rest : List ℕ)
    → f.stream_id < 2 ^ 32
    → parse_blocked_frame version (write_blocked_frame version f ++ rest) ≡ ok (f, rest)
unfolding parse_blocked_frame write_blocked_frame read_byte
parse-write_blocked_frame version f rest hs =
    rw (read-write_uint32 (get_byte_order version) f.stream_id rest hs) refl

reason_fits : (n : ℕ) → n ≤ max_packet_size → leb (n % 2 ^ 16) max_packet_size ≡ true
reason_fits n h = ground arith

short_len : (n : ℕ) → n ≤ max_packet_size → n % 2 ^ 16 ≡ n
short_len n h = omega arith

-- A GOAWAY frame whose numbers fit 32 bits and whose reason phrase is no longer than a packet reads
-- back as it was written, whatever follows it.
pub parse-write_goaway_frame :
    (version : ℤ) (f : GoawayFrame) (rest : List ℕ)
    → f.error_code < 2 ^ 32
    → f.last_good_stream < 2 ^ 32
    → length f.reason_phrase ≤ max_packet_size
    → parse_goaway_frame version (write_goaway_frame version f ++ rest) ≡ ok (f, rest)
unfolding parse_goaway_frame write_goaway_frame read_byte
parse-write_goaway_frame version f rest he hs hr = simp append_assoc (
    rw
      (
        read-write_uint32 (get_byte_order version) f.error_code _ he,
        read-write_uint32 (get_byte_order version) f.last_good_stream _ hs,
        read-write_uint16 (get_byte_order version) (length f.reason_phrase % 2 ^ 16) _
            (omega arith),
        reason_fits (length f.reason_phrase) hr,
        short_len (length f.reason_phrase) hr,
        read_full-append f.reason_phrase rest,
      )
      refl)

connection_close_writes : (n : ℕ) → n ≤ max_packet_size → ltb (2 ^ 16 - 1) n ≡ false
connection_close_writes n h = ground arith

-- A CONNECTION_CLOSE frame whose error code fits 32 bits and whose reason phrase is no longer than a
-- packet is written, and reads back as it was, whatever follows it.
pub parse-write_connection_close_frame :
    (version : ℤ) (f : ConnectionCloseFrame) (rest : List ℕ)
    → f.error_code < 2 ^ 32
    → length f.reason_phrase ≤ max_packet_size
    → (w : List ℕ) × (write_connection_close_frame version f ≡ ok w)
      × (parse_connection_close_frame version (w ++ rest) ≡ ok (f, rest))
unfolding parse_connection_close_frame write_connection_close_frame read_byte
parse-write_connection_close_frame version f rest he hr = (
  0x02
      ∷ (write_uint32 (get_byte_order version) f.error_code
          ++ (write_uint16 (get_byte_order version) (length f.reason_phrase % 2 ^ 16)
              ++ f.reason_phrase)),
  rw (connection_close_writes (length f.reason_phrase) hr),
  simp append_assoc (
      rw
        (
          read-write_uint32 (get_byte_order version) f.error_code _ he,
          read-write_uint16 (get_byte_order version) (length f.reason_phrase % 2 ^ 16) _
              (omega arith),
          reason_fits (length f.reason_phrase) hr,
          short_len (length f.reason_phrase) hr,
          read_full-append f.reason_phrase rest,
        )
        refl),
)

one_byte :
    (version : ℤ) (v : ℕ) → v < 256 → uint_bytes (get_byte_order version) 1 v ≡ (v % 2 ^ 8) ∷ []
one_byte version v h = single (get_byte_order version)
  where
    single : (o : ByteOrder) → uint_bytes o 1 v ≡ (v % 2 ^ 8) ∷ []
    single big_endian = unfold uint_bytes big_bytes in ap (λ (t : ℕ). t ∷ []) (omega arith)
    single little_endian = unfold uint_bytes little_bytes in refl

stop_waiting_fits :
    (version : ℤ) (l : PacketNumberLen) (delta : ℕ)
    → l ≢ invalid
    → delta < 256 ^ byte_count l
    → write_least_unacked_delta (get_byte_order version) l delta
      ≡ ok (uint_bytes (get_byte_order version) (byte_count l) delta)
unfolding write_least_unacked_delta write_uint16 write_uint32 write_uint48
stop_waiting_fits version invalid delta ne hd = absurd (ne refl)
stop_waiting_fits version len1 delta ne hd = ground (arith, one_byte version delta)
stop_waiting_fits version len2 delta ne hd = ground arith
stop_waiting_fits version len4 delta ne hd = ground arith
stop_waiting_fits version len6 delta ne hd = ground arith

-- A STOP_WAITING frame with a packet number length, whose least unacknowledged number is positive, not
-- above the packet number, and at a distance that fits that length, is written, and the receiver of
-- that packet reads the number back, whatever follows.
pub parse-write_stop_waiting_frame :
    (version : ℤ) (f : StopWaitingFrame) (rest : List ℕ)
    → f.packet_number_len ≢ invalid
    → 0 < f.least_unacked
    → f.least_unacked ≤ f.packet_number
    → f.packet_number - f.least_unacked < 256 ^ byte_count f.packet_number_len
    → (w : List ℕ) × (write_stop_waiting_frame version f ≡ ok w)
      × (parse_stop_waiting_frame version f.packet_number f.packet_number_len (w ++ rest)
          ≡ ok (f.least_unacked, rest))
unfolding write_stop_waiting_frame parse_stop_waiting_frame read_byte
parse-write_stop_waiting_frame version f rest ne hp hl hd =
    let delta = f.packet_number - f.least_unacked in
    let n = byte_count f.packet_number_len in
    let back : delta % 256 ^ n ≡ delta = mod-eq_of_lt hd in
    (
      0x06 ∷ uint_bytes (get_byte_order version) n delta,
      ground (arith, stop_waiting_fits version f.packet_number_len delta ne hd),
      rw (read_uint_n-uint_bytes (get_byte_order version) n delta rest, back) (ground arith),
    )
