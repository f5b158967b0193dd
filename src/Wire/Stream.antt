-- ===== src/Wire/Stream.antt =====
-- quic-go/internal/wire/stream_frame.go: STREAM frames with the loss count, the path and the time
-- stamp that shared-bottleneck detection adds.
pub mod RoundTrip
use mpquic_sbd.Base.{
  ℕ, ◌+◌, ◌-◌, ◌*◌, ◌/◌, ◌%◌, ◌^◌, Bool, true, false, not, ◌&&◌, List, [], ◌∷◌, ◌++◌, Result, ok,
  err, ltb, leb, ◌==◌, length, if◌then◌else◌,
}
use mpquic_sbd.Base
use mpquic_sbd.Base.Int.{ℤ}
use mpquic_sbd.Wire.Bytes.{
  WireError, Parser, ◌>>=◌, ◌>>◌, returns, require, remaining, ByteOrder, get_byte_order, read_byte,
  read_full, read_uint_n, read_uint16, read_uint64, write_uint16, write_uint24, write_uint32,
  write_uint40, write_uint48, write_uint56, write_uint64, data_len_too_large, data_overflow,
  empty_stream_frame_no_fin, empty_frame_without_fin, invalid_stream_id_len, invalid_offset_len,
}

pub record StreamFrame : Type 0 where
  pub stream_id : ℕ
  pub fin_bit : Bool
  pub data_len_present : Bool
  pub offset : ℕ
  pub loss_count : ℕ
  pub path_id : ℕ
  pub time_stamp : ℕ
  pub content : List ℕ

abbrev pub max_packet_size : ℕ
max_packet_size = 1350

-- `DataLen()`
abbrev pub data_len : StreamFrame → ℕ
data_len f = length f.content

-- Is bit `k` of `byte` set?
abbrev pub bit : ℕ → ℕ → Bool
bit byte k = byte / 2 ^ k % 2 == 1

-- The length field if the frame has one; otherwise the rest of the packet is data.
unfoldable pub read_data_len : ByteOrder → Bool → Parser ℕ
read_data_len o true = read_uint16 o
read_data_len o false = returns 0

unfoldable pub rest_if_absent : Bool → ℕ → Parser ℕ
rest_if_absent true n = returns n
rest_if_absent false n = do rest ← remaining; returns (rest % 2 ^ 16)

-- `typeByte & 0x1c >> 2` is `(typeByte & 0x1c) >> 2`: Go's `&` and `>>` bind alike.
unfoldable pub offset_len_of : ℕ → ℕ
offset_len_of type_byte =
    let offset_len = type_byte / 4 % 8 in if offset_len == 0 then 0 else offset_len + 1

unfoldable pub parse_stream_frame : ℤ → Parser StreamFrame
parse_stream_frame version = do
  type_byte ← read_byte
  let o = get_byte_order version
  let fin_bit = bit type_byte 6
  let data_len_present = bit type_byte 5
  sid ← read_uint_n o (type_byte % 4 + 1)
  offset ← read_uint_n o (offset_len_of type_byte)
  losses ← read_byte
  path_id ← read_byte
  time_stamp ← read_uint64 o
  field ← read_data_len o data_len_present
  require (leb field max_packet_size) data_len_too_large
  len ← rest_if_absent data_len_present field
  content ← read_full len
  require (leb offset ((offset + length content) % 2 ^ 64)) data_overflow
  require (not (not fin_bit && length content == 0)) empty_stream_frame_no_fin
  returns (record {
    stream_id = sid;
    fin_bit = fin_bit;
    data_len_present = data_len_present;
    offset = offset;
    loss_count = losses;
    path_id = path_id;
    time_stamp = time_stamp;
    content = content;
  })

unfoldable pub calculate_stream_id_length : StreamFrame → ℕ
calculate_stream_id_length f =
    if ltb f.stream_id (2 ^ 8)
    then 1
    else if ltb f.stream_id (2 ^ 16)
    then 2
    else if ltb f.stream_id (2 ^ 24)
    then 3
    else 4

unfoldable pub get_offset_length : StreamFrame → ℕ
get_offset_length f =
    if f.offset == 0
    then 0
    else if ltb f.offset (2 ^ 16)
    then 2
    else if ltb f.offset (2 ^ 24)
    then 3
    else if ltb f.offset (2 ^ 32)
    then 4
    else if ltb f.offset (2 ^ 40)
    then 5
    else if ltb f.offset (2 ^ 48)
    then 6
    else if ltb f.offset (2 ^ 56)
    then 7
    else 8

-- `switch streamIDLen`
unfoldable pub write_stream_id : ByteOrder → ℕ → ℕ → Result WireError (List ℕ)
write_stream_id o len sid =
    if len == 1
    then ok ((sid % 256) ∷ [])
    else if len == 2
    then ok (write_uint16 o (sid % 2 ^ 16))
    else if len == 3
    then write_uint24 o (sid % 2 ^ 32)
    else if len == 4
    then ok (write_uint32 o (sid % 2 ^ 32))
    else err invalid_stream_id_len

-- `switch offsetLength`
unfoldable pub write_offset : ByteOrder → ℕ → ℕ → Result WireError (List ℕ)
write_offset o len offset =
    if len == 0
    then ok []
    else if len == 2
    then ok (write_uint16 o (offset % 2 ^ 16))
    else if len == 3
    then write_uint24 o (offset % 2 ^ 32)
    else if len == 4
    then ok (write_uint32 o (offset % 2 ^ 32))
    else if len == 5
    then write_uint40 o offset
    else if len == 6
    then write_uint48 o offset
    else if len == 7
    then write_uint56 o offset
    else if len == 8
    then ok (write_uint64 o offset)
    else err invalid_offset_len

abbrev pub flag : Bool → ℕ → ℕ
flag b n = if b then n else 0

-- The bits that `^=` sets are distinct, so that it adds them.
unfoldable pub stream_type_byte : StreamFrame → ℕ
stream_type_byte f =
    128
    + flag f.fin_bit 64
    + flag f.data_len_present 32
    + (get_offset_length f - 1) * 4
    + (calculate_stream_id_length f - 1)

unfoldable pub len_field : ByteOrder → StreamFrame → List ℕ
len_field o f = if f.data_len_present then write_uint16 o (length f.content % 2 ^ 16) else []

unfoldable pub write_stream_frame : ℤ → StreamFrame → Result WireError (List ℕ)
write_stream_frame version f =
    if length f.content == 0 && not f.fin_bit
    then err empty_frame_without_fin
    else (Base.◌>>=◌ (write_stream_id o (calculate_stream_id_length f) f.stream_id) λ sid.
        Base.◌>>=◌ (write_offset o (get_offset_length f) f.offset) λ offset. ok (
          stream_type_byte f
          ∷ (sid
              ++ (offset
                  ++ (f.loss_count
                      ∷ f.path_id
                      ∷ (write_uint64 o f.time_stamp ++ (len_field o f ++ f.content)))))))
  where
    o : ByteOrder
    o = get_byte_order version

unfoldable pub stream_min_length : StreamFrame → ℕ
stream_min_length f =
    3 + calculate_stream_id_length f + get_offset_length f + 8 + flag f.data_len_present 2
