-- ===== src/Examples/Wire.antt =====
-- Packet numbers, frames, durations and byte orders at concrete values.
use mpquic_sbd.Base.{
  ℕ, ◌+◌, ◌-◌, ◌*◌, ◌%◌, ◌^◌, ◌≤◌, ◌≡◌, ◌≢◌, refl, inl, true, List, [], ◌∷◌, ◌++◌, ok, err, arith,
  length, if◌then◌else◌, ltb,
}
use mpquic_sbd.Base.Int.{pos}
use mpquic_sbd.Protocol.{
  PacketNumberLen, len1, byte_count, infer_packet_number,
  get_packet_number_length_for_public_header, get_packet_number_length,
}
use mpquic_sbd.Protocol.Infer.{infer-truncated, infer-get_packet_number_length_for_public_header}
use mpquic_sbd.Wire.Bytes.{
  little_endian, read_uint_n, uint_bytes, write_uint16, write_uint24, write_uint64, get_byte_order,
}
use mpquic_sbd.Wire.Bytes.Order.{read_uint_n-uint_bytes}
use mpquic_sbd.Wire.Stream.{
  StreamFrame, parse_stream_frame, write_stream_frame, stream_min_length, data_len, write_stream_id,
  write_offset, calculate_stream_id_length, get_offset_length, stream_type_byte, len_field,
}
use mpquic_sbd.Wire.Stream.RoundTrip.{IsValid, parse-write_stream_frame, length-write_stream_frame}
use mpquic_sbd.Wire.Control
use mpquic_sbd.Wire.Control.{
  WindowUpdateFrame, RstStreamFrame, BlockedFrame, GoawayFrame, ConnectionCloseFrame,
  StopWaitingFrame,
}
use mpquic_sbd.Wire.Control.RoundTrip.{
  parse-write_window_update_frame, parse-write_rst_stream_frame, parse-write_blocked_frame,
  parse-write_goaway_frame, parse-write_connection_close_frame, parse-write_stop_waiting_frame,
}
use mpquic_sbd.Wire.Float16.{decode_ufloat16, encode_ufloat16}
use mpquic_sbd.Wire.Float16.Precision.{decode-encode_ufloat16}
use mpquic_sbd.Wire.Ack.{
  AckFrame, ack_min_length, num_writable_ranges, count_nack_ranges,
  get_missing_sequence_number_delta_len, delta_len_for, max_range_length, acks_packet,
  in_some_range, validate_ack_ranges, last_first, validate_ranges, each_range_valid,
  consistent_after,
}
use mpquic_sbd.Wire.Ack.Acked.{acks_packet-in_some_range}
use mpquic_sbd.Wire.Ack.Codec.{write_ack_frame, write_len, write_ranges, write_blocks, write_block}
use mpquic_sbd.Wire.Ack.Length.{length-write_ack_frame}

len1-valid : len1 ≢ PacketNumberLen.invalid
len1-valid e = ground arith

infer-truncated_example : infer_packet_number len1 1000 (1010 % 2 ^ 8) ≡ 1010
infer-truncated_example =
    infer-truncated len1 1000 1010 len1-valid (omega arith) (omega arith) (omega arith)
      (omega arith)

infer-get_packet_number_length_for_public_header_example :
    let l = get_packet_number_length_for_public_header 70_000 100 in
    infer_packet_number l 69_000 (70_000 % 2 ^ (byte_count l * 8)) ≡ 70_000
infer-get_packet_number_length_for_public_header_example =
    infer-get_packet_number_length_for_public_header 70_000 100 69_000 (omega arith) (omega arith)
      (omega arith) (omega arith) (omega arith)

read_written_uint_bytes :
    read_uint_n little_endian 2 (uint_bytes little_endian 2 70_000 ++ (9 ∷ []))
    ≡ ok (70_000 % 256 ^ 2, 9 ∷ [])
read_written_uint_bytes = read_uint_n-uint_bytes little_endian 2 70_000 (9 ∷ [])

abbrev sample_frame : StreamFrame
sample_frame = record {
  stream_id = 300;
  fin_bit = true;
  data_len_present = true;
  offset = 70_000;
  loss_count = 2;
  path_id = 3;
  time_stamp = 123_456_789;
  content = 1 ∷ 2 ∷ 3 ∷ [];
}

sample_frame-IsValid : IsValid sample_frame
sample_frame-IsValid = record {
  sid_fits = omega arith;
  in_range = omega arith;
  stamp_fits = omega arith;
  not_empty = refl;
  short = omega arith;
}

parse-write_stream_frame_example :
    (w : List ℕ) × (write_stream_frame (pos 39) sample_frame ≡ ok w)
    × (parse_stream_frame (pos 39) (w ++ (7 ∷ [])) ≡ ok (sample_frame, 7 ∷ []))
parse-write_stream_frame_example =
    parse-write_stream_frame (pos 39) sample_frame (7 ∷ []) sample_frame-IsValid (inl refl)

abbrev sample_bytes : List ℕ
sample_bytes =
    233 ∷ 1 ∷ 44 ∷ 1 ∷ 17 ∷ 112 ∷ 2 ∷ 3 ∷ 0 ∷ 0 ∷ 0 ∷ 0 ∷ 7 ∷ 91 ∷ 205 ∷ 21 ∷ 0 ∷ 3 ∷ 1 ∷ 2 ∷ 3 ∷ []

sample_frame-bytes : write_stream_frame (pos 39) sample_frame ≡ ok sample_bytes
unfolding write_stream_frame write_stream_id write_offset calculate_stream_id_length
    get_offset_length stream_type_byte len_field write_uint16 write_uint24 write_uint64 uint_bytes
    get_byte_order
sample_frame-bytes = refl

length-write_stream_frame_example :
    length sample_bytes ≡ stream_min_length sample_frame + data_len sample_frame
length-write_stream_frame_example =
    length-write_stream_frame (pos 39) sample_frame sample_bytes sample_frame-IsValid
      sample_frame-bytes

abbrev update : WindowUpdateFrame
update = record { stream_id = 5; byte_offset = 1_000_000 }

parse_written_window_update_frame :
    Control.parse_window_update_frame
      (pos 39)
      (Control.write_window_update_frame (pos 39) update ++ (9 ∷ []))
    ≡ ok (update, 9 ∷ [])
parse_written_window_update_frame =
    parse-write_window_update_frame (pos 39) update (9 ∷ []) (omega arith) (omega arith)

abbrev reset : RstStreamFrame
reset = record { stream_id = 5; error_code = 7; byte_offset = 1_000_000 }

parse_written_rst_stream_frame :
    Control.parse_rst_stream_frame
      (pos 39)
      (Control.write_rst_stream_frame (pos 39) reset ++ (9 ∷ []))
    ≡ ok (reset, 9 ∷ [])
parse_written_rst_stream_frame =
    parse-write_rst_stream_frame (pos 39) reset (9 ∷ []) (omega arith) (omega arith) (omega arith)

abbrev blocked : BlockedFrame
blocked = record { stream_id = 5 }

parse_written_blocked_frame :
    Control.parse_blocked_frame (pos 39) (Control.write_blocked_frame (pos 39) blocked ++ (9 ∷ []))
    ≡ ok (blocked, 9 ∷ [])
parse_written_blocked_frame = parse-write_blocked_frame (pos 39) blocked (9 ∷ []) (omega arith)

abbrev goaway : GoawayFrame
goaway = record { error_code = 1; last_good_stream = 5; reason_phrase = 98 ∷ 121 ∷ 101 ∷ [] }

parse_written_goaway_frame :
    Control.parse_goaway_frame (pos 39) (Control.write_goaway_frame (pos 39) goaway ++ (9 ∷ []))
    ≡ ok (goaway, 9 ∷ [])
parse_written_goaway_frame =
    parse-write_goaway_frame (pos 39) goaway (9 ∷ []) (omega arith) (omega arith) (omega arith)

abbrev closing : ConnectionCloseFrame
closing = record { error_code = 1; reason_phrase = 98 ∷ 121 ∷ 101 ∷ [] }

parse_written_connection_close_frame :
    (w : List ℕ) × (Control.write_connection_close_frame (pos 39) closing ≡ ok w)
    × (Control.parse_connection_close_frame (pos 39) (w ++ (9 ∷ [])) ≡ ok (closing, 9 ∷ []))
parse_written_connection_close_frame =
    parse-write_connection_close_frame (pos 39) closing (9 ∷ []) (omega arith) (omega arith)

abbrev stop : StopWaitingFrame
stop = record { least_unacked = 40; packet_number_len = len1; packet_number = 50 }

parse_written_stop_waiting_frame :
    (w : List ℕ) × (Control.write_stop_waiting_frame (pos 39) stop ≡ ok w)
    × (Control.parse_stop_waiting_frame (pos 39) 50 len1 (w ++ (9 ∷ [])) ≡ ok (40, 9 ∷ []))
parse_written_stop_waiting_frame =
    parse-write_stop_waiting_frame (pos 39) stop (9 ∷ []) len1-valid (omega arith) (omega arith)
      (omega arith)

decode-encode_ufloat16_example :
    (decode_ufloat16 (encode_ufloat16 5001) ≤ 5001)
    × ((5001 - decode_ufloat16 (encode_ufloat16 5001)) * 2 ^ 11
        ≤ (if ltb 5001 (2 ^ 12) then 0 else 5001))
decode-encode_ufloat16_example = decode-encode_ufloat16 5001 (omega arith)

-- Packets 1 to 4 and 7 to 9 are acknowledged.
abbrev ack : AckFrame
ack = record {
  path_id = 0;
  largest_acked = 9;
  lowest_acked = 1;
  ack_ranges = record { first = 7; last = 9 } ∷ record { first = 1; last = 4 } ∷ [];
  delay = 0;
  groups = 0;
  epoch = 0;
}

ack-valid : validate_ack_ranges ack ≡ true
unfolding validate_ack_ranges validate_ranges each_range_valid consistent_after last_first
ack-valid = refl

ack-last_first : ack.lowest_acked ≡ last_first ack.ack_ranges
unfolding last_first
ack-last_first = refl

acks_packet-in_some_range_example : acks_packet ack 5 ≡ in_some_range 5 ack.ack_ranges
acks_packet-in_some_range_example =
    acks_packet-in_some_range ack 5 (omega arith, (omega arith, tt)) refl ack-valid ack-last_first

abbrev ack_bytes : List ℕ
ack_bytes = elim (write_ack_frame (pos 39) ack) as (λ _. List ℕ) [ ok w ↦ w | err e ↦ [] ]

ack-written : write_ack_frame (pos 39) ack ≡ ok ack_bytes
unfolding write_ack_frame write_len get_packet_number_length num_writable_ranges count_nack_ranges
    write_ranges last_first get_missing_sequence_number_delta_len delta_len_for max_range_length
    write_blocks write_block
ack-written = refl

length-write_ack_frame_example : length ack_bytes ≡ ack_min_length ack
length-write_ack_frame_example = length-write_ack_frame (pos 39) ack ack_bytes ack-written
