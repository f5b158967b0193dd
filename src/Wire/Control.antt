-- ===== src/Wire/Control.antt =====
-- quic-go/internal/wire: the control frames of fixed layout. A reason phrase is its bytes.
pub mod RoundTrip
use mpquic_sbd.Base.{
  ℕ, ◌+◌, ◌-◌, ◌*◌, ◌/◌, ◌%◌, ◌^◌, Bool, true, false, not, ◌&&◌, List, [], ◌∷◌, ◌++◌, Result, ok,
  err, ltb, leb, ◌==◌, length, if◌then◌else◌,
}
use mpquic_sbd.Base.Int.{ℤ}
use mpquic_sbd.Protocol.{PacketNumberLen, invalid, len1, len2, len4, len6, byte_count}
use mpquic_sbd.Wire.Stream.{max_packet_size}
use mpquic_sbd.Wire.Bytes.{
  WireError, Parser, ◌>>=◌, ◌>>◌, returns, require, ByteOrder, get_byte_order, read_byte, read_full,
  read_uint_n, read_uint16, read_uint32, read_uint64, write_uint16, write_uint32, write_uint48,
  write_uint64, reason_too_long, packet_number_not_set, packet_number_len_not_set,
  least_unacked_too_high, invalid_least_unacked_delta,
}

pub record WindowUpdateFrame : Type 0 where
  pub stream_id : ℕ
  pub byte_offset : ℕ

unfoldable pub write_window_update_frame : ℤ → WindowUpdateFrame → List ℕ
write_window_update_frame version f =
    let o = get_byte_order version in
    0x04 ∷ (write_uint32 o f.stream_id ++ write_uint64 o f.byte_offset)

unfoldable pub parse_window_update_frame : ℤ → Parser WindowUpdateFrame
parse_window_update_frame version = do
  let o = get_byte_order version
  read_byte
  sid ← read_uint32 o
  byte_offset ← read_uint64 o
  returns (record { stream_id = sid; byte_offset = byte_offset })

pub record RstStreamFrame : Type 0 where
  pub stream_id : ℕ
  pub error_code : ℕ
  pub byte_offset : ℕ

unfoldable pub write_rst_stream_frame : ℤ → RstStreamFrame → List ℕ
write_rst_stream_frame version f =
    let o = get_byte_order version in
    0x01
    ∷ (write_uint32 o f.stream_id ++ (write_uint64 o f.byte_offset ++ write_uint32 o f.error_code))

unfoldable pub parse_rst_stream_frame : ℤ → Parser RstStreamFrame
parse_rst_stream_frame version = do
  let o = get_byte_order version
  read_byte
  sid ← read_uint32 o
  byte_offset ← read_uint64 o
  error_code ← read_uint32 o
  returns (record { stream_id = sid; error_code = error_code; byte_offset = byte_offset })

pub record BlockedFrame : Type 0 where
  pub stream_id : ℕ

unfoldable pub write_blocked_frame : ℤ → BlockedFrame → List ℕ
write_blocked_frame version f = 0x05 ∷ write_uint32 (get_byte_order version) f.stream_id

unfoldable pub parse_blocked_frame : ℤ → Parser BlockedFrame
parse_blocked_frame version = do
  read_byte
  sid ← read_uint32 (get_byte_order version)
  returns (record { stream_id = sid })

pub record GoawayFrame : Type 0 where
  pub error_code : ℕ
  pub last_good_stream : ℕ
  pub reason_phrase : List ℕ

unfoldable pub parse_goaway_frame : ℤ → Parser GoawayFrame
parse_goaway_frame version = do
  let o = get_byte_order version
  read_byte
  error_code ← read_uint32 o
  last_good_stream ← read_uint32 o
  reason_phrase_len ← read_uint16 o
  require (leb reason_phrase_len max_packet_size) reason_too_long
  reason_phrase ← read_full reason_phrase_len
  returns (record {
    error_code = error_code;
    last_good_stream = last_good_stream;
    reason_phrase = reason_phrase;
  })

unfoldable pub write_goaway_frame : ℤ → GoawayFrame → List ℕ
write_goaway_frame version f =
    let o = get_byte_order version in
    0x03
    ∷ (write_uint32 o f.error_code
        ++ (write_uint32 o f.last_good_stream
            ++ (write_uint16 o (length f.reason_phrase % 2 ^ 16) ++ f.reason_phrase)))

pub record ConnectionCloseFrame : Type 0 where
  pub error_code : ℕ
  pub reason_phrase : List ℕ

unfoldable pub parse_connection_close_frame : ℤ → Parser ConnectionCloseFrame
parse_connection_close_frame version = do
  let o = get_byte_order version
  read_byte
  error_code ← read_uint32 o
  reason_phrase_len ← read_uint16 o
  require (leb reason_phrase_len max_packet_size) reason_too_long
  reason_phrase ← read_full reason_phrase_len
  returns (record { error_code = error_code; reason_phrase = reason_phrase })

-- math.MaxUint16 is 2 ^ 16 - 1.
unfoldable pub write_connection_close_frame : ℤ → ConnectionCloseFrame → Result WireError (List ℕ)
write_connection_close_frame version f =
    let o = get_byte_order version in
    if ltb (2 ^ 16 - 1) (length f.reason_phrase)
    then err reason_too_long
    else ok (
        0x02
        ∷ (write_uint32 o f.error_code
            ++ (write_uint16 o (length f.reason_phrase % 2 ^ 16) ++ f.reason_phrase)))

pub record StopWaitingFrame : Type 0 where
  pub least_unacked : ℕ
  pub packet_number_len : PacketNumberLen
  pub packet_number : ℕ

-- `switch f.PacketNumberLen`
unfoldable pub write_least_unacked_delta :
    ByteOrder → PacketNumberLen → ℕ → Result WireError (List ℕ)
write_least_unacked_delta o len1 delta = ok ((delta % 2 ^ 8) ∷ [])
write_least_unacked_delta o len2 delta = ok (write_uint16 o (delta % 2 ^ 16))
write_least_unacked_delta o len4 delta = ok (write_uint32 o (delta % 2 ^ 32))
write_least_unacked_delta o len6 delta = write_uint48 o (delta % 2 ^ 48)
write_least_unacked_delta o invalid delta = err packet_number_len_not_set

abbrev prefixed : ℕ → Result WireError (List ℕ) → Result WireError (List ℕ)
prefixed b (ok w) = ok (b ∷ w)
prefixed b (err e) = err e

unfoldable pub write_stop_waiting_frame : ℤ → StopWaitingFrame → Result WireError (List ℕ)
write_stop_waiting_frame version f =
    if f.packet_number == 0
    then err packet_number_not_set
    else if ltb f.packet_number f.least_unacked
    then err least_unacked_too_high
    else prefixed 0x06 (
        write_least_unacked_delta (get_byte_order version) f.packet_number_len
          (f.packet_number - f.least_unacked))

-- The parser knows the packet number and its length from the public header; of the frame it sets
-- `LeastUnacked` alone.
unfoldable pub parse_stop_waiting_frame : ℤ → ℕ → PacketNumberLen → Parser ℕ
parse_stop_waiting_frame version packet_number packet_number_len = do
  read_byte
  delta ← read_uint_n (get_byte_order version) (byte_count packet_number_len)
  require (ltb delta packet_number) invalid_least_unacked_delta
  returns (packet_number - delta)
