-- ===== src/Wire/Ack/Codec.antt =====
-- quic-go/internal/wire/ack_frame.go: reading and writing ACK frames. What `^=` and `|=` make of
-- distinct bits is their sum.
use mpquic_sbd.Base.{
  ℕ, zero, suc, ◌+◌, ◌-◌, ◌*◌, ◌/◌, ◌%◌, ◌^◌, Bool, true, false, not, ◌&&◌, ◌||◌, List, [], ◌∷◌,
  ◌++◌, Result, ok, err, ltb, leb, ◌==◌, if◌then◌else◌,
}
use mpquic_sbd.Base.Int.{ℤ}
use mpquic_sbd.Protocol.{
  PacketNumberLen, invalid, len1, len2, len4, len6, byte_count, sub_u64, add_u64,
  get_packet_number_length,
}
use mpquic_sbd.Wire.Stream.{bit, flag}
use mpquic_sbd.Wire.Float16.{read_ufloat16, write_ufloat16}
use mpquic_sbd.Wire.Bytes.{
  WireError, Parser, ◌>>=◌, ◌>>◌, returns, require, ByteOrder, get_byte_order, read_byte,
  read_uint_n, read_uint16, read_uint32, write_uint16, write_uint32, write_uint48, panics,
  invalid_ack_ranges, invalid_first_ack_range, inconsistent_largest_acked,
  inconsistent_lowest_acked, inconsistent_ranges_written,
}
use mpquic_sbd.Wire.Ack.{
  AckRange, AckFrame, has_missing_ranges, validate_ranges, gap_below, blocks_of_gap,
  num_writable_ranges, range_length, get_missing_sequence_number_delta_len, last_first,
}

-- The field lengths in the type byte: two bits that stand for 1, 2, 4 or 6 bytes.
abbrev pub field_len : ℕ → ℕ
field_len bits = if bits == 0 then 1 else 2 * bits

-- What the loop over the ACK blocks keeps: the ranges so far, the lowest of them apart.
pub record Blocks : Type 0 where
  pub lowest : AckRange
  pub above : List AckRange
  pub in_long_block : Bool
  pub last_range_complete : Bool

-- One ACK block: the gap and the length that were read. The ranges above are kept lowest first.
unfoldable pub add_block : Blocks → ℕ → ℕ → Blocks
add_block s gap len =
    if s.in_long_block
    then record {
      lowest = record {
        first = sub_u64 s.lowest.first (add_u64 gap len);
        last = sub_u64 s.lowest.last gap;
      };
      above = s.above;
      in_long_block = len == 0;
      last_range_complete = ltb 0 len || s.last_range_complete;
    }
    else (let last = sub_u64 (sub_u64 s.lowest.first gap) 1 in
        record {
          lowest = record { first = add_u64 (sub_u64 last len) 1; last = last };
          above = s.lowest ∷ s.above;
          in_long_block = len == 0;
          last_range_complete = ltb 0 len;
        })

unfoldable pub read_blocks : ByteOrder → ℕ → ℕ → Blocks → Parser Blocks
read_blocks o delta_len zero s = returns s
read_blocks o delta_len (suc n) s = do
  gap ← read_byte
  len ← read_uint_n o delta_len
  read_blocks o delta_len n (add_block s gap len)

-- A list that is kept lowest first, in the order of the frame.
unfoldable pub onto : List AckRange → List AckRange → List AckRange
onto [] out = out
onto (r ∷ above) out = onto above (r ∷ out)

-- An incomplete last range is dropped.
unfoldable pub blocks_ranges : Blocks → List AckRange
blocks_ranges s = if s.last_range_complete then onto s.above (s.lowest ∷ []) else onto s.above []

-- The time stamps are skipped: 1 + 4 bytes for the first, 1 + 2 for each other.
unfoldable pub skip_more_timestamps : ByteOrder → ℕ → Parser (Unit {0})
skip_more_timestamps o zero = returns tt
skip_more_timestamps o (suc n) = do read_byte; read_uint16 o; skip_more_timestamps o n

unfoldable pub skip_timestamps : ByteOrder → ℕ → Parser (Unit {0})
skip_timestamps o zero = returns tt
skip_timestamps o (suc n) = do read_byte; read_uint32 o; skip_more_timestamps o n

unfoldable pub read_num_blocks : Bool → Parser ℕ
read_num_blocks true = read_byte
read_num_blocks false = returns 0

-- The ranges and the lowest packet, once the first block is read.
unfoldable pub read_ranges : ByteOrder → Bool → ℕ → ℕ → ℕ → ℕ → Parser (List AckRange × ℕ)
read_ranges o true delta_len num largest_acked block_len = do
  s ← read_blocks o delta_len num (record {
    lowest = record { first = add_u64 (sub_u64 largest_acked block_len) 1; last = largest_acked };
    above = [];
    in_long_block = false;
    last_range_complete = false;
  })
  returns (blocks_ranges s, last_first (blocks_ranges s))
read_ranges o false delta_len num largest_acked block_len =
    returns ([], if largest_acked == 0 then 0 else sub_u64 (add_u64 largest_acked 1) block_len)

unfoldable pub read_path_id : Bool → Parser ℕ
read_path_id true = read_byte
read_path_id false = returns 0

unfoldable pub parse_ack_frame : ℤ → Parser AckFrame
parse_ack_frame version = do
  let o = get_byte_order version
  type_byte ← read_byte
  let missing = bit type_byte 5
  let delta_len = field_len (type_byte % 4)
  path_id ← read_path_id (bit type_byte 4)
  largest_acked ← read_uint_n o (field_len (type_byte / 4 % 4))
  delay ← read_ufloat16 o
  num ← read_num_blocks missing
  require (not (missing && num == 0)) invalid_ack_ranges
  block_len ← read_uint_n o delta_len
  require (not (ltb 0 largest_acked && ltb block_len 1)) invalid_first_ack_range
  require (not (ltb largest_acked block_len)) invalid_ack_ranges
  (ranges, lowest_acked) ← read_ranges o missing delta_len num largest_acked block_len
  require (validate_ranges largest_acked ranges) invalid_ack_ranges
  num_timestamp ← read_byte
  skip_timestamps o num_timestamp
  groups ← read_byte
  epoch ← read_uint16 o
  returns (record {
    path_id = path_id;
    largest_acked = largest_acked;
    lowest_acked = lowest_acked;
    ack_ranges = ranges;
    delay = delay;
    groups = groups;
    epoch = epoch;
  })

-- `switch largestAckedLen` and `switch missingSequenceNumberDeltaLen`: the mask keeps 48 bits.
unfoldable pub write_len : ByteOrder → PacketNumberLen → ℕ → Result WireError (List ℕ)
write_len o len1 v = ok ((v % 2 ^ 8) ∷ [])
write_len o len2 v = ok (write_uint16 o (v % 2 ^ 16))
write_len o len4 v = ok (write_uint32 o (v % 2 ^ 32))
write_len o len6 v = write_uint48 o (v % 2 ^ 48)
write_len o invalid v = ok []

-- The bits for a length in the type byte.
abbrev pub len_bits : PacketNumberLen → ℕ
len_bits len1 = 0
len_bits l = byte_count l / 2

infixl 5 ◌then_write◌
-- What is written after `w`, or the error that either meets.
abbrev pub ◌then_write◌ :
    Result WireError (List ℕ) → Result WireError (List ℕ) → Result WireError (List ℕ)
err e then_write r = err e
ok w then_write ok w' = ok (w ++ w')
ok w then_write err e = err e

-- A long gap takes blocks of 255 missing packets and no received ones, and a last one.
unfoldable pub write_long_gap : ByteOrder → PacketNumberLen → ℕ → ℕ → ℕ → Result WireError (List ℕ)
write_long_gap o l zero gap len = ok []
write_long_gap o l (suc zero) gap len =
    ok (((1 + (gap - 1) % 255) % 256) ∷ []) then_write write_len o l len
write_long_gap o l (suc (suc n)) gap len =
    ok (0xff ∷ []) then_write write_len o l 0 then_write write_long_gap o l (suc n) gap len

unfoldable pub write_block :
    ByteOrder → PacketNumberLen → AckRange → AckRange → Result WireError (List ℕ)
write_block o l prev r =
    let gap = gap_below prev r in
    let num = blocks_of_gap gap in
    if num == 1
    then ok ((gap % 256) ∷ []) then_write write_len o l (range_length r)
    else write_long_gap o l num gap (range_length r)

-- The loop over the ranges, after `written` blocks of `num_ranges`; it returns how many are written.
unfoldable pub write_blocks :
    ByteOrder → PacketNumberLen → ℕ → ℕ → AckRange → List AckRange → Result WireError (List ℕ) × ℕ
write_blocks o l num_ranges written prev [] = (ok [], written)
write_blocks o l num_ranges written prev (r ∷ rest) =
    let written' = written + blocks_of_gap (gap_below prev r) in
    let more = write_blocks o l num_ranges written' r rest in
    if leb num_ranges written'
    then (write_block o l prev r, written')
    else (write_block o l prev r then_write more.0, more.1)

unfoldable pub write_ranges :
    ByteOrder → PacketNumberLen → AckFrame → List AckRange → Result WireError (List ℕ)
write_ranges o l f [] = write_len o l (add_u64 (sub_u64 f.largest_acked f.lowest_acked) 1)
write_ranges o l f (r ∷ rest) =
    if not (f.largest_acked == r.last)
    then err inconsistent_largest_acked
    else if not (f.lowest_acked == last_first (r ∷ rest))
    then err inconsistent_lowest_acked
    else (let num_ranges = num_writable_ranges (r ∷ rest) in
        let (w, written) = write_blocks o l num_ranges 1 r rest in
        write_len o l (add_u64 (sub_u64 f.largest_acked r.first) 1)
        then_write w
        then_write (if num_ranges == written then ok [] else err inconsistent_ranges_written))

abbrev pub num_blocks_field : AckFrame → Result WireError (List ℕ)
num_blocks_field f =
    if has_missing_ranges f
    then (if ltb 0xff (num_writable_ranges f.ack_ranges)
        then err panics
        else ok ((num_writable_ranges f.ack_ranges - 1) ∷ []))
    else ok []

unfoldable pub ack_type_byte : AckFrame → ℕ
ack_type_byte f =
    64
    + len_bits (get_packet_number_length f.largest_acked) * 4
    + len_bits (get_missing_sequence_number_delta_len f)
    + flag (has_missing_ranges f) 32
    + flag (not (f.path_id == 0)) 16

unfoldable pub write_ack_frame : ℤ → AckFrame → Result WireError (List ℕ)
write_ack_frame version f =
    ok (ack_type_byte f ∷ (if f.path_id == 0 then [] else f.path_id ∷ []))
    then_write write_len o (get_packet_number_length f.largest_acked) f.largest_acked
    then_write ok (write_ufloat16 o f.delay)
    then_write num_blocks_field f
    then_write write_ranges o (get_missing_sequence_number_delta_len f) f f.ack_ranges
    then_write ok (0 ∷ f.groups ∷ write_uint16 o f.epoch)
  where
    o : ByteOrder
    o = get_byte_order version
