-- ===== src/Wire/Stream/RoundTrip.antt =====
-- What a STREAM frame's writer writes is what its parser reads.
use mpquic_sbd.Base.{
  ℕ, ◌+◌, ◌%◌, ◌^◌, ◌<◌, ◌≡◌, refl, ◌∙◌, sym, ap, true, false, not, ◌&&◌, List, [], ◌∷◌, ◌++◌, ok,
  leb, ◌==◌, length, length-append, Bool-cases, inl, inr, ◌⊎◌, ◌≤◌, if◌then◌else◌, arith,
}
use mpquic_sbd.Base.Int.{ℤ}
use mpquic_sbd.Wire.Bytes.{
  ByteOrder, get_byte_order, read_uint_n, uint_bytes, big_bytes, little_bytes, big_endian,
  little_endian, read_byte, write_uint16, write_uint24, write_uint32, write_uint40, write_uint48,
  write_uint56, write_uint64,
}
use mpquic_sbd.Wire.Bytes.Order.{
  read_uint_n-uint_bytes, length-uint_bytes, read_full-append, read-write_uint16, read-write_uint64,
}
use mathlib.Core.List.{append_assoc}
use mpquic_sbd.Wire.Stream.{
  StreamFrame, stream_min_length, data_len, max_packet_size, bit, flag, parse_stream_frame,
  write_stream_frame, read_data_len, rest_if_absent, len_field, stream_type_byte, offset_len_of,
  write_stream_id, write_offset, calculate_stream_id_length, get_offset_length,
}

-- The chosen lengths hold their values, so that nothing panics and no error is returned.
one_byte : (o : ByteOrder) (v : ℕ) → v < 256 → uint_bytes o 1 v ≡ (v % 256) ∷ []
unfolding uint_bytes big_bytes little_bytes
one_byte big_endian v h = ap (λ (t : ℕ). t ∷ []) (omega arith)
one_byte little_endian v h = refl

write_stream_id_lem :
    (o : ByteOrder) (f : StreamFrame)
    → f.stream_id < 2 ^ 32
    → write_stream_id o (calculate_stream_id_length f) f.stream_id
      ≡ ok (uint_bytes o (calculate_stream_id_length f) f.stream_id)
unfolding write_stream_id calculate_stream_id_length write_uint16 write_uint24 write_uint32
write_stream_id_lem o f h = ground (arith, one_byte o f.stream_id)

write_offset_lem :
    (o : ByteOrder) (f : StreamFrame)
    → f.offset < 2 ^ 64
    → write_offset o (get_offset_length f) f.offset
      ≡ ok (uint_bytes o (get_offset_length f) f.offset)
unfolding write_offset get_offset_length write_uint16 write_uint24 write_uint32 write_uint40
    write_uint48 write_uint56 write_uint64
write_offset_lem o f h = ground arith

stream_id_fits :
    (f : StreamFrame)
    → f.stream_id < 2 ^ 32
    → f.stream_id % 256 ^ calculate_stream_id_length f ≡ f.stream_id
unfolding calculate_stream_id_length
stream_id_fits f h = ground arith

offset_fits :
    (f : StreamFrame) → f.offset < 2 ^ 64 → f.offset % 256 ^ get_offset_length f ≡ f.offset
unfolding get_offset_length
offset_fits f h = ground arith

type_byte_fields :
    (f : StreamFrame)
    → (bit (stream_type_byte f) 6 ≡ f.fin_bit)
      × (bit (stream_type_byte f) 5 ≡ f.data_len_present)
      × (stream_type_byte f % 4 + 1 ≡ calculate_stream_id_length f)
      × (offset_len_of (stream_type_byte f) ≡ get_offset_length f)
unfolding stream_type_byte offset_len_of get_offset_length calculate_stream_id_length
type_byte_fields f = (ground arith, ground arith, ground arith, ground arith)

-- What the writer writes for a frame that is not both empty and without FIN.
stream_bytes : ByteOrder → StreamFrame → List ℕ
stream_bytes o f =
    stream_type_byte f
    ∷ (uint_bytes o (calculate_stream_id_length f) f.stream_id
        ++ (uint_bytes o (get_offset_length f) f.offset
            ++ (f.loss_count
                ∷ f.path_id
                ∷ (write_uint64 o f.time_stamp ++ (len_field o f ++ f.content)))))

pub record IsValid (f : StreamFrame) : Type 0 where
  pub sid_fits : f.stream_id < 2 ^ 32
  pub in_range : f.offset + length f.content < 2 ^ 64
  pub stamp_fits : f.time_stamp < 2 ^ 64
  pub not_empty : (length f.content == 0 && not f.fin_bit) ≡ false
  pub short : length f.content ≤ max_packet_size

write_stream_frame_lem :
    (version : ℤ) (f : StreamFrame)
    → IsValid f
    → write_stream_frame version f ≡ ok (stream_bytes (get_byte_order version) f)
unfolding write_stream_frame stream_bytes
write_stream_frame_lem version f v = rw (
  v.not_empty,
  write_stream_id_lem (get_byte_order version) f v.sid_fits,
  write_offset_lem (get_byte_order version) f (omega (arith, v.in_range)),
)

read_data_len_lem :
    (o : ByteOrder) (f : StreamFrame) (rest : List ℕ)
    → length f.content ≤ max_packet_size
    → read_data_len o f.data_len_present (len_field o f ++ rest)
      ≡ ok (if f.data_len_present then length f.content else 0, rest)
unfolding read_data_len len_field
read_data_len_lem o f rest h = elim (Bool-cases f.data_len_present) [
  | inl e ↦
      rw (e, read_data_len, len_field)
        (ground (arith, read-write_uint16 o (length f.content % 2 ^ 16) rest))
  | inr e ↦ rw (e, read_data_len, len_field) refl
]

field_short :
    (f : StreamFrame)
    → length f.content ≤ max_packet_size
    → leb (if f.data_len_present then length f.content else 0) max_packet_size ≡ true
field_short f h = ground arith

rest_if_absent_lem :
    (f : StreamFrame) (rest : List ℕ)
    → length f.content ≤ max_packet_size
    → ((f.data_len_present ≡ true) ⊎ (rest ≡ []))
    → rest_if_absent f.data_len_present
        (if f.data_len_present then length f.content else 0)
        (f.content ++ rest)
      ≡ ok (length f.content, f.content ++ rest)
unfolding rest_if_absent
rest_if_absent_lem f rest h last = ground (arith, length-append f.content rest)

-- A valid stream frame is written, and parsing that gives the frame back and leaves what follows it;
-- nothing may follow a frame with no length field, which reaches to the end of the packet.
pub parse-write_stream_frame :
    (version : ℤ) (f : StreamFrame) (rest : List ℕ)
    → IsValid f
    → ((f.data_len_present ≡ true) ⊎ (rest ≡ []))
    → (w : List ℕ) × (write_stream_frame version f ≡ ok w)
      × (parse_stream_frame version (w ++ rest) ≡ ok (f, rest))
unfolding stream_bytes parse_stream_frame read_byte
parse-write_stream_frame version f rest v last =
    (stream_bytes (get_byte_order version) f, write_stream_frame_lem version f v, parsed)
  where
    o : ByteOrder
    o = get_byte_order version

    field_read :
        (n v : ℕ) {rest : List ℕ}
        → v % 256 ^ n ≡ v
        → read_uint_n o n (uint_bytes o n v ++ rest) ≡ ok (v, rest)
    field_read n v {rest} e = read_uint_n-uint_bytes o n v rest ∙ ap (λ (t : ℕ). ok (t, rest)) e

    checks :
        (leb f.offset ((f.offset + length f.content) % 2 ^ 64) ≡ true)
        × (not (not f.fin_bit && length f.content == 0) ≡ true)
    checks = (ground (arith, v.in_range), ground (arith, v.not_empty))

    parsed :
        parse_stream_frame version (stream_bytes (get_byte_order version) f ++ rest) ≡ ok (f, rest)
    parsed =
        simp
          (
            append_assoc,
            (type_byte_fields f).0,
            (type_byte_fields f).1,
            (type_byte_fields f).2,
            (type_byte_fields f).3,
          )
          (rw
            (
              field_read (calculate_stream_id_length f) f.stream_id (stream_id_fits f v.sid_fits),
              field_read (get_offset_length f) f.offset (offset_fits f (omega (arith, v.in_range))),
              read-write_uint64 o f.time_stamp _ v.stamp_fits,
              read_data_len_lem o f (f.content ++ rest) v.short,
              field_short f v.short,
              rest_if_absent_lem f rest v.short last,
              read_full-append f.content rest,
              checks.0,
              checks.1,
            )
            refl)

length-len_field :
    (o : ByteOrder) (f : StreamFrame) → length (len_field o f) ≡ flag f.data_len_present 2
unfolding len_field write_uint16
length-len_field o f = ground (arith, length-uint_bytes o 2 (length f.content % 2 ^ 16))

-- For a valid stream frame MinLength plus the length of its data is the number of bytes written.
pub length-write_stream_frame :
    (version : ℤ) (f : StreamFrame) (w : List ℕ)
    → IsValid f
    → write_stream_frame version f ≡ ok w
    → length w ≡ stream_min_length f + data_len f
unfolding stream_min_length stream_bytes write_uint64
length-write_stream_frame version f w v e = ap length (sym same) ∙ sizes
  where
    o : ByteOrder
    o = get_byte_order version

    same : stream_bytes o f ≡ w
    same = cc (write_stream_frame_lem version f v, e)

    sizes : length (stream_bytes o f) ≡ stream_min_length f + data_len f
    sizes = simp (length-append, length-uint_bytes, length-len_field) (omega arith)
