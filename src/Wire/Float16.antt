-- ===== src/Wire/Float16.antt =====
-- quic-go/internal/utils/float16.go: a duration in 16 bits, with a 5-bit exponent and an 11-bit
-- mantissa.
pub mod Precision
use mpquic_sbd.Base.{ℕ, ◌+◌, ◌-◌, ◌*◌, ◌/◌, ◌%◌, ◌^◌, ltb, leb, if◌then◌else◌}
use mpquic_sbd.Base
use mpquic_sbd.Wire.Bytes.{Parser, ◌>>=◌, returns, ByteOrder, read_uint16, write_uint16}

-- uFloat16MaxValue
abbrev pub max_value : ℕ
max_value = (2 ^ 12 - 1) * 2 ^ 30

-- The value of the 16 bits `val`, in `readUfloat16`.
unfoldable pub decode_ufloat16 : ℕ → ℕ
decode_ufloat16 val =
    if ltb val (2 ^ 12)
    then val
    else (let exponent = val / 2 ^ 11 - 1 in (val - exponent * 2 ^ 11) * 2 ^ exponent)

unfoldable pub read_ufloat16 : ByteOrder → Parser ℕ
unfolding decode_ufloat16
read_ufloat16 o = do val ← read_uint16 o; returns (decode_ufloat16 val)

pub record Shifted : Type 0 where
  pub exponent : ℕ
  pub value : ℕ

-- One round of the search: the highest bit is brought down by `offset`, if it is far enough up.
unfoldable pub shift_down : ℕ → Shifted → Shifted
shift_down offset s =
    if leb (2 ^ (11 + offset)) s.value
    then record { exponent = s.exponent + offset; value = s.value / 2 ^ offset }
    else s

-- The loop over the offsets 16, 8, 4, 2 and 1.
unfoldable pub normalise : ℕ → Shifted
normalise value = shift_down 1 (
    shift_down 2
      (shift_down 4 (shift_down 8 (shift_down 16 (record { exponent = 0; value = value })))))

-- The 16 bits that `writeUfloat16` writes.
unfoldable pub encode_ufloat16 : ℕ → ℕ
encode_ufloat16 value =
    if ltb value (2 ^ 12)
    then value
    else if leb max_value value
    then 2 ^ 16 - 1
    else ((normalise value).value % 2 ^ 16 + (normalise value).exponent * 2 ^ 11) % 2 ^ 16

unfoldable pub write_ufloat16 : ByteOrder → ℕ → Base.List ℕ
unfolding encode_ufloat16
write_ufloat16 o value = write_uint16 o (encode_ufloat16 value)
