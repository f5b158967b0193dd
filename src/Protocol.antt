-- ===== src/Protocol.antt =====
-- quic-go/internal/protocol: packet numbers and their truncation on the wire.
-- A `PacketNumber` is a uint64, kept as a number with its wrap-around written out.
pub mod Infer
use mpquic_sbd.Base.{ℕ, ◌+◌, ◌-◌, ◌*◌, ◌/◌, ◌%◌, ◌^◌, Bool, true, false, ltb, if◌then◌else◌}

abbrev pub u64_mod : ℕ
u64_mod = 2 ^ 64

-- The constants of `PacketNumberLen`.
pub data PacketNumberLen : Type 0 where
  invalid len1 len2 len4 len6 : PacketNumberLen

abbrev pub byte_count : PacketNumberLen → ℕ
byte_count invalid = 0
byte_count len1 = 1
byte_count len2 = 2
byte_count len4 = 4
byte_count len6 = 6

abbrev pub sub_u64 : ℕ → ℕ → ℕ
sub_u64 a b = (a + u64_mod - b) % u64_mod

abbrev pub add_u64 : ℕ → ℕ → ℕ
add_u64 a b = (a + b) % u64_mod

unfoldable pub delta : ℕ → ℕ → ℕ
delta a b = if ltb a b then b - a else a - b

unfoldable pub closest_to : ℕ → ℕ → ℕ → ℕ
unfolding delta
closest_to target a b = if ltb (delta target a) (delta target b) then a else b

-- `x & ^(d - 1)` for a power of two `d`: the low bits of `x` are cleared.
abbrev pub clear_low : ℕ → ℕ → ℕ
clear_low x d = x / d * d

unfoldable pub infer_packet_number : PacketNumberLen → ℕ → ℕ → ℕ
unfolding closest_to
infer_packet_number packet_number_length last_packet_number wire_packet_number =
    let epoch_delta = 2 ^ (byte_count packet_number_length * 8) in
    let epoch = clear_low last_packet_number epoch_delta in
    let prev_epoch_begin = sub_u64 epoch epoch_delta in
    let next_epoch_begin = add_u64 epoch epoch_delta in
    let target = add_u64 last_packet_number 1 in
    closest_to target (add_u64 epoch wire_packet_number) (
      closest_to target (add_u64 prev_epoch_begin wire_packet_number)
        (add_u64 next_epoch_begin wire_packet_number))

-- `2 << (16 - 2)` and `2 << (32 - 2)` are 2 ^ 15 and 2 ^ 31.
unfoldable pub get_packet_number_length_for_public_header : ℕ → ℕ → PacketNumberLen
get_packet_number_length_for_public_header packet_number least_unacked =
    let diff = sub_u64 packet_number least_unacked in
    if ltb diff (2 ^ 15) then len2 else if ltb diff (2 ^ 31) then len4 else len6

unfoldable pub get_packet_number_length : ℕ → PacketNumberLen
get_packet_number_length packet_number =
    if ltb packet_number (2 ^ 8)
    then len1
    else if ltb packet_number (2 ^ 16)
    then len2
    else if ltb packet_number (2 ^ 32)
    then len4
    else len6
