-- ===== src/Wire/Ack.antt =====
-- quic-go/internal/wire/ack_frame.go: ACK frames with the group and the epoch that shared-bottleneck
-- detection adds: the frame, its ranges, and which packets it acknowledges.
pub mod Codec
pub mod Acked
pub mod Length
use mpquic_sbd.Base.{
  ℕ, zero, suc, ◌+◌, ◌-◌, ◌*◌, ◌/◌, ◌%◌, ◌^◌, Bool, true, false, not, ◌&&◌, ◌||◌, List, [], ◌∷◌,
  ◌++◌, Result, ok, err, ltb, leb, ◌==◌, length, if◌then◌else◌,
}
use mpquic_sbd.Base
use mpquic_sbd.Base.Int.{ℤ}
use mpquic_sbd.Protocol.{
  PacketNumberLen, invalid, len1, len2, len4, len6, byte_count, sub_u64, add_u64,
  get_packet_number_length,
}
use mpquic_sbd.Wire.Stream.{bit, flag}
use mpquic_sbd.Wire.Bytes.{
  WireError, Parser, ◌>>=◌, ◌>>◌, returns, require, fails, ByteOrder, get_byte_order, read_byte,
  read_uint_n, read_uint16, read_uint32, write_uint16, write_uint32, write_uint48, panics,
  invalid_ack_ranges, invalid_first_ack_range, inconsistent_largest_acked,
  inconsistent_lowest_acked, inconsistent_ranges_written,
}

pub record AckRange : Type 0 where
  pub first : ℕ
  pub last : ℕ

-- `PacketReceivedTime` stays with the receiver that makes the frame; `delay` is the ACK delay in
-- microseconds.
pub record AckFrame : Type 0 where
  pub path_id : ℕ
  pub largest_acked : ℕ
  pub lowest_acked : ℕ
  pub ack_ranges : List AckRange
  pub delay : ℕ
  pub groups : ℕ
  pub epoch : ℕ

abbrev pub has_missing_ranges : AckFrame → Bool
has_missing_ranges f = ltb 0 (length f.ack_ranges)

-- `for _, ackRange := range f.AckRanges`: the validity of every single range.
unfoldable pub each_range_valid : List AckRange → Bool
each_range_valid [] = true
each_range_valid (r ∷ rest) = not (ltb r.last r.first) && each_range_valid rest

-- The consistency of each range with the one before it, which is `prev` for the first of the list.
unfoldable pub consistent_after : AckRange → List AckRange → Bool
consistent_after prev [] = true
consistent_after prev (r ∷ rest) =
    not (leb prev.first r.first)
    && (not (leb prev.first (add_u64 r.last 1)) && consistent_after r rest)

unfoldable pub validate_ranges : ℕ → List AckRange → Bool
validate_ranges largest_acked [] = true
validate_ranges largest_acked (r ∷ []) = false
validate_ranges largest_acked (r ∷ s ∷ rest) =
    (r.last == largest_acked) && (each_range_valid (r ∷ s ∷ rest) && consistent_after r (s ∷ rest))

unfoldable pub validate_ack_ranges : AckFrame → Bool
validate_ack_ranges f = validate_ranges f.largest_acked f.ack_ranges

unfoldable pub in_some_range : ℕ → List AckRange → Bool
in_some_range p [] = false
in_some_range p (r ∷ rest) = (leb r.first p && leb p r.last) || in_some_range p rest

unfoldable pub acks_packet : AckFrame → ℕ → Bool
acks_packet f p =
    if ltb p f.lowest_acked || ltb f.largest_acked p
    then false
    else if has_missing_ranges f
    then in_some_range p f.ack_ranges
    else leb f.lowest_acked p && leb p f.largest_acked

-- How many blocks the gap below `prev` and the range `r` take; a gap above 255 packets takes more.
abbrev pub gap_below : AckRange → AckRange → ℕ
gap_below prev r = sub_u64 (sub_u64 prev.first r.last) 1

abbrev pub blocks_of_gap : ℕ → ℕ
blocks_of_gap gap = if gap % 255 == 0 then gap / 255 else gap / 255 + 1

-- The loop of `numWritableNackRanges`.
unfoldable pub count_nack_ranges : ℕ → AckRange → List AckRange → ℕ
count_nack_ranges n prev [] = n
count_nack_ranges n prev (r ∷ rest) =
    let range_length = blocks_of_gap (gap_below prev r) in
    let more = count_nack_ranges (n + range_length) r rest in
    if ltb (n + range_length) 255 then more else n

unfoldable pub num_writable_ranges : List AckRange → ℕ
num_writable_ranges [] = 0
num_writable_ranges (r ∷ rest) = count_nack_ranges 0 r rest + 1

abbrev pub range_length : AckRange → ℕ
range_length r = add_u64 (sub_u64 r.last r.first) 1

unfoldable pub max_range_length : ℕ → List AckRange → ℕ
max_range_length longest [] = longest
max_range_length longest (r ∷ rest) =
    max_range_length (if ltb longest (range_length r) then range_length r else longest) rest

unfoldable pub delta_len_for : ℕ → PacketNumberLen
delta_len_for longest =
    if leb longest 0xff
    then len1
    else if leb longest 0xffff
    then len2
    else if leb longest 0xffff_ffff
    then len4
    else len6

unfoldable pub get_missing_sequence_number_delta_len : AckFrame → PacketNumberLen
get_missing_sequence_number_delta_len f = delta_len_for (
    if has_missing_ranges f
    then max_range_length 0 f.ack_ranges
    else add_u64 (sub_u64 f.largest_acked f.lowest_acked) 1)

-- `frame.AckRanges[len(frame.AckRanges)-1].First`, of ranges that are not empty.
unfoldable pub last_first : List AckRange → ℕ
last_first [] = 0
last_first (r ∷ []) = r.first
last_first (r ∷ s ∷ rest) = last_first (s ∷ rest)

-- What the blocks add to the length of a frame, each with a byte for the gap where there are several.
unfoldable pub ack_blocks_length : List AckRange → PacketNumberLen → ℕ
ack_blocks_length ranges delta_len =
    if ltb 0 (length ranges)
    then (1 + byte_count delta_len) * num_writable_ranges ranges
    else byte_count delta_len

-- `MinLength`
unfoldable pub ack_min_length : AckFrame → ℕ
ack_min_length f =
    let fixed = 1 + 2 + 1 + 1 + 2 in
    fixed
    + byte_count (get_packet_number_length f.largest_acked)
    + ack_blocks_length f.ack_ranges (get_missing_sequence_number_delta_len f)
    + (if f.path_id == 0 then 0 else 1)
