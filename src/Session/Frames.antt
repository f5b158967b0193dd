-- ===== src/Session/Frames.antt =====
-- quic-go/internal/wire: the frames that a packet carries beside STREAM frames, with their MinLength,
-- which is what the packer counts.
use mpquic_sbd.Base.{ℕ, ◌+◌, ◌*◌, ◌%◌, ◌^◌, Result, ok, err, ltb, ◌==◌, length, if◌then◌else◌}
use mpquic_sbd.Protocol.{
  PacketNumberLen, invalid, len1, len2, len4, len6, byte_count, sub_u64, add_u64,
  get_packet_number_length,
}
use mpquic_sbd.Wire.Bytes.{WireError, packet_number_len_not_set, unknown_ip_version}
use mpquic_sbd.Wire.Ack.{
  AckFrame, max_range_length, delta_len_for, ack_min_length, ack_blocks_length,
}
use mpquic_sbd.Wire.Control.{
  WindowUpdateFrame, RstStreamFrame, BlockedFrame, GoawayFrame, ConnectionCloseFrame,
  StopWaitingFrame,
}
use mpquic_sbd.AckHandler.Sent.{ClosePathFrame}
use mpquic_sbd.Streams.Framer.{AddAddressFrame, PathsFrame}

pub data ControlFrame : Type 0 where
  window_update_frame : WindowUpdateFrame → ControlFrame
  rst_stream_frame : RstStreamFrame → ControlFrame
  blocked_frame : BlockedFrame → ControlFrame
  goaway_frame : GoawayFrame → ControlFrame
  connection_close_frame : ConnectionCloseFrame → ControlFrame
  stop_waiting_frame : StopWaitingFrame → ControlFrame
  ping_frame : ControlFrame
  ack_frame : AckFrame → ControlFrame
  close_path_frame : ClosePathFrame → ControlFrame
  add_address_frame : AddAddressFrame → ControlFrame
  paths_frame : PathsFrame → ControlFrame

unfoldable pub window_update_min_length : WindowUpdateFrame → ℕ
window_update_min_length f = 1 + 4 + 8

unfoldable pub rst_stream_min_length : RstStreamFrame → ℕ
rst_stream_min_length f = 1 + 4 + 8 + 4

unfoldable pub blocked_min_length : BlockedFrame → ℕ
blocked_min_length f = 1 + 4

unfoldable pub goaway_min_length : GoawayFrame → ℕ
goaway_min_length f = 1 + 4 + 4 + 2 + length f.reason_phrase

unfoldable pub connection_close_min_length : ConnectionCloseFrame → ℕ
connection_close_min_length f = 1 + 4 + 2 + length f.reason_phrase

unfoldable pub stop_waiting_min_length : StopWaitingFrame → Result WireError ℕ
stop_waiting_min_length f = elim f.packet_number_len [
  | invalid ↦ err packet_number_len_not_set
  | len1 ↦ ok (1 + byte_count len1)
  | len2 ↦ ok (1 + byte_count len2)
  | len4 ↦ ok (1 + byte_count len4)
  | len6 ↦ ok (1 + byte_count len6)
]

unfoldable pub ping_min_length : ℕ
ping_min_length = 1

unfoldable pub close_path_delta_len : ClosePathFrame → PacketNumberLen
close_path_delta_len f = delta_len_for (
    if ltb 0 (length f.ack_ranges)
    then max_range_length 0 f.ack_ranges
    else add_u64 (sub_u64 f.largest_acked f.lowest_acked) 1)

unfoldable pub close_path_min_length : ClosePathFrame → ℕ
close_path_min_length f =
    3
    + byte_count (get_packet_number_length f.largest_acked)
    + ack_blocks_length f.ack_ranges (close_path_delta_len f)

unfoldable pub add_address_min_length : AddAddressFrame → Result WireError ℕ
add_address_min_length f =
    if f.ip_version == 4
    then ok (1 + 1 + 4 + 2)
    else if f.ip_version == 6
    then ok (1 + 1 + 16 + 2)
    else err unknown_ip_version

-- The sum is of the type of `NumPaths`, uint8, and wraps.
unfoldable pub paths_min_length : PathsFrame → ℕ
paths_min_length f = (1 + 1 + 1 + 3 * f.num_paths) % 2 ^ 8

-- The method of the interface, for every type that has it but STREAM frames.
unfoldable pub min_length : ControlFrame → Result WireError ℕ
min_length (window_update_frame f) = ok (window_update_min_length f)
min_length (rst_stream_frame f) = ok (rst_stream_min_length f)
min_length (blocked_frame f) = ok (blocked_min_length f)
min_length (goaway_frame f) = ok (goaway_min_length f)
min_length (connection_close_frame f) = ok (connection_close_min_length f)
min_length (stop_waiting_frame f) = stop_waiting_min_length f
min_length ping_frame = ok ping_min_length
min_length (ack_frame f) = ok (ack_min_length f)
min_length (close_path_frame f) = ok (close_path_min_length f)
min_length (add_address_frame f) = add_address_min_length f
min_length (paths_frame f) = ok (paths_min_length f)
