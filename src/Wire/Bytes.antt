-- ===== src/Wire/Bytes.antt =====
-- quic-go/internal/utils/byteorder*.go: integers as bytes, and the reader that parsers share.
-- A `bytes.Reader` is the list of the bytes not yet read, a `bytes.Buffer` the list of those written.
pub mod Order
use mpquic_sbd.Base.{
  ℕ, zero, suc, ◌+◌, ◌-◌, ◌*◌, ◌/◌, ◌%◌, ◌^◌, Bool, true, false, List, [], ◌∷◌, ◌++◌, Result, ok,
  err, ltb, leb, length, take, drop, if◌then◌else◌,
}
use mpquic_sbd.Base.Int.{ℤ, pos, negsuc, pos_part, neg_part, ltb_ℤ}

-- The errors of the parsers and writers; `panics` is Go's panic.
pub data WireError : Type 0 where
  eof unexpected_eof panics : WireError
  invalid_ack_ranges invalid_first_ack_range : WireError
  inconsistent_largest_acked inconsistent_lowest_acked inconsistent_ranges_written : WireError
  data_len_too_large data_overflow empty_stream_frame_no_fin empty_frame_without_fin : WireError
  invalid_stream_id_len invalid_offset_len : WireError
  reason_too_long packet_number_not_set packet_number_len_not_set : WireError
  least_unacked_too_high invalid_least_unacked_delta unknown_ip_version : WireError

abbrev pub Parser : Type 0 → Type 0
Parser A = List ℕ → Result WireError (A × List ℕ)

-- The next step of a parser, on what the last one returned.
abbrev pub and_then :
    {A B : Type 0} → Result WireError (A × List ℕ) → (A → Parser B) → Result WireError (B × List ℕ)
and_then (ok (a, r)) f = f a r
and_then (err e) f = err e

infixl 5 ◌>>=◌ ◌>>◌
abbrev pub ◌>>=◌ : {A B : Type 0} → Parser A → (A → Parser B) → Parser B
◌>>=◌ m f r = and_then (m r) f

abbrev pub ◌>>◌ : {A B : Type 0} → Parser A → Parser B → Parser B
m >> k = m >>= λ _. k

abbrev pub returns : {A : Type 0} → A → Parser A
returns a r = ok (a, r)

abbrev pub fails : {A : Type 0} → WireError → Parser A
fails e r = err e

abbrev pub require : Bool → WireError → Parser (Unit {0})
require true e = returns tt
require false e = fails e

-- `r.Len()`
abbrev pub remaining : Parser ℕ
remaining r = ok (length r, r)

unfoldable pub read_byte : Parser ℕ
read_byte [] = err eof
read_byte (b ∷ r) = ok (b, r)

-- `io.ReadFull(r, data)` into a slice of `n` bytes.
unfoldable pub read_full : ℕ → Parser (List ℕ)
read_full n r = if leb n (length r) then ok (take n r, drop n r) else err unexpected_eof

pub data ByteOrder : Type 0 where
  little_endian big_endian : ByteOrder

-- Version39 is 39; the versions that stand for an error are negative.
unfoldable pub get_byte_order : ℤ → ByteOrder
get_byte_order v = if ltb_ℤ v (pos 39) then little_endian else big_endian

-- The bytes have disjoint places, so that `^=` adds them. `n` bytes are still to be read.
unfoldable pub read_big : ℕ → ℕ → Parser ℕ
unfolding read_byte
read_big zero res = returns res
read_big (suc n) res = do b ← read_byte; read_big n (res + b * 256 ^ n)

-- `place` is 2 ^ (8 * i) for the byte `i` that is read next.
unfoldable pub read_little : ℕ → ℕ → ℕ → Parser ℕ
unfolding read_byte
read_little zero place res = returns res
read_little (suc n) place res = do b ← read_byte; read_little n (place * 256) (res + b * place)

unfoldable pub read_uint_n : ByteOrder → ℕ → Parser ℕ
unfolding read_big read_little
read_uint_n big_endian n = read_big n 0
read_uint_n little_endian n = read_little n 1 0

unfoldable pub read_uint16 : ByteOrder → Parser ℕ
unfolding read_uint_n
read_uint16 o = read_uint_n o 2

unfoldable pub read_uint32 : ByteOrder → Parser ℕ
unfolding read_uint_n
read_uint32 o = read_uint_n o 4

unfoldable pub read_uint64 : ByteOrder → Parser ℕ
unfolding read_uint_n
read_uint64 o = read_uint_n o 8

-- The low `n` bytes, the highest of them first: `uint8(i >> 8 * (n - 1)), …, uint8(i)`.
unfoldable pub big_bytes : ℕ → ℕ → List ℕ
big_bytes zero i = []
big_bytes (suc n) i = (i / 256 ^ n % 256) ∷ big_bytes n i

-- The low `n` bytes, the lowest first.
unfoldable pub little_bytes : ℕ → ℕ → List ℕ
little_bytes zero i = []
little_bytes (suc n) i = (i % 256) ∷ little_bytes n (i / 256)

unfoldable pub uint_bytes : ByteOrder → ℕ → ℕ → List ℕ
unfolding big_bytes little_bytes
uint_bytes big_endian n i = big_bytes n i
uint_bytes little_endian n i = little_bytes n i

unfoldable pub write_uint16 : ByteOrder → ℕ → List ℕ
unfolding uint_bytes
write_uint16 o i = uint_bytes o 2 i

unfoldable pub write_uint32 : ByteOrder → ℕ → List ℕ
unfolding uint_bytes
write_uint32 o i = uint_bytes o 4 i

unfoldable pub write_uint64 : ByteOrder → ℕ → List ℕ
unfolding uint_bytes
write_uint64 o i = uint_bytes o 8 i

-- A value that does not fit makes these panic.
unfoldable pub write_uint24 : ByteOrder → ℕ → Result WireError (List ℕ)
unfolding uint_bytes
write_uint24 o i = if leb (2 ^ 24) i then err panics else ok (uint_bytes o 3 i)

unfoldable pub write_uint40 : ByteOrder → ℕ → Result WireError (List ℕ)
unfolding uint_bytes
write_uint40 o i = if leb (2 ^ 40) i then err panics else ok (uint_bytes o 5 i)

unfoldable pub write_uint48 : ByteOrder → ℕ → Result WireError (List ℕ)
unfolding uint_bytes
write_uint48 o i = if leb (2 ^ 48) i then err panics else ok (uint_bytes o 6 i)

unfoldable pub write_uint56 : ByteOrder → ℕ → Result WireError (List ℕ)
unfolding uint_bytes
write_uint56 o i = if leb (2 ^ 56) i then err panics else ok (uint_bytes o 7 i)
