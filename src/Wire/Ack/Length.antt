-- ===== src/Wire/Ack/Length.antt =====
-- quic-go/internal/wire/ack_frame.go: an ACK frame is as long as MinLength says.
use mpquic_sbd.Base.{
  ℕ, zero, suc, ◌+◌, ◌-◌, ◌*◌, ◌%◌, ◌^◌, ◌≡◌, refl, subst, ◌⊎◌, inl, inr, Bool, true, false, not,
  List, [], ◌∷◌, Result, ok, err, ltb, leb, ◌==◌, length, length-append, if◌then◌else◌, Bool-cases,
  arith,
}
use mpquic_sbd.Base.Int.{ℤ}
use mpquic_sbd.Protocol.{
  PacketNumberLen, invalid, len1, len2, len4, len6, byte_count, get_packet_number_length, sub_u64,
  add_u64,
}
use mpquic_sbd.Wire.Float16.{write_ufloat16}
use mpquic_sbd.Wire.Bytes.{
  WireError, ByteOrder, get_byte_order, write_uint16, write_uint32, write_uint48, uint_bytes,
  inconsistent_ranges_written, inconsistent_largest_acked, inconsistent_lowest_acked, panics,
}
use mpquic_sbd.Wire.Bytes.Order.{length-uint_bytes}
use mpquic_sbd.Wire.Ack.{
  AckRange, AckFrame, num_writable_ranges, gap_below, blocks_of_gap, range_length, last_first,
  count_nack_ranges, get_missing_sequence_number_delta_len, ack_min_length, ack_blocks_length,
}
use mpquic_sbd.Wire.Ack.Codec.{
  write_len, write_long_gap, write_block, write_blocks, write_ranges, write_ack_frame, ◌then_write◌,
  num_blocks_field, ack_type_byte,
}

-- What is written has `n` bytes, where it is written at all.
abbrev IsLong : ℕ → Result WireError (List ℕ) → Type 0
IsLong n (ok w) = length w ≡ n
IsLong n (err e) = Unit

then_write-IsLong :
    (m n : ℕ) (v w : Result WireError (List ℕ))
    → IsLong m v
    → IsLong n w
    → IsLong (m + n) (v then_write w)
then_write-IsLong m n (err e) w p q = tt
then_write-IsLong m n (ok v) (err e) p q = tt
then_write-IsLong m n (ok v) (ok w) p q = omega (arith, p, q, length-append v w)

write_len-IsLong :
    (o : ByteOrder) (l : PacketNumberLen) (v : ℕ) → IsLong (byte_count l) (write_len o l v)
unfolding write_len write_uint16 write_uint32 write_uint48
write_len-IsLong o len1 v = refl
write_len-IsLong o len2 v = length-uint_bytes o 2 (v % 2 ^ 16)
write_len-IsLong o len4 v = length-uint_bytes o 4 (v % 2 ^ 32)
write_len-IsLong o len6 v = elim (Bool-cases (leb (2 ^ 48) (v % 2 ^ 48))) [
  | inl t ↦ rw (write_uint48, t) tt
  | inr t ↦ rw (write_uint48, t) (length-uint_bytes o 6 (v % 2 ^ 48))
]
write_len-IsLong o invalid v = refl

equal-IsLong : (m n : ℕ) (w : Result WireError (List ℕ)) → m ≡ n → IsLong m w → IsLong n w
equal-IsLong m n w e l = subst (λ k. IsLong k w) e l

either-IsLong :
    (n : ℕ) (b : Bool) (v w : Result WireError (List ℕ))
    → IsLong n v
    → IsLong n w
    → IsLong n (if b then v else w)
either-IsLong n true v w p q = p
either-IsLong n false v w p q = q

write_long_gap-IsLong :
    (o : ByteOrder) (l : PacketNumberLen) (n gap len : ℕ)
    → IsLong ((1 + byte_count l) * n) (write_long_gap o l n gap len)
unfolding write_long_gap
write_long_gap-IsLong o l zero gap len = omega arith
write_long_gap-IsLong o l (suc zero) gap len = equal-IsLong (1 + byte_count l) _ _ (omega arith) (
    then_write-IsLong 1 (byte_count l) (ok (((1 + (gap - 1) % 255) % 256) ∷ [])) (write_len o l len)
      refl (write_len-IsLong o l len))
write_long_gap-IsLong o l (suc (suc n)) gap len =
    equal-IsLong (1 + byte_count l + (1 + byte_count l) * suc n) _ _ (omega arith) (
      then_write-IsLong (1 + byte_count l) ((1 + byte_count l) * suc n) _ _
        (then_write-IsLong 1 (byte_count l) (ok (0xff ∷ [])) (write_len o l 0) refl
          (write_len-IsLong o l 0))
        (write_long_gap-IsLong o l (suc n) gap len))

write_block-IsLong :
    (o : ByteOrder) (l : PacketNumberLen) (prev r : AckRange)
    → IsLong ((1 + byte_count l) * blocks_of_gap (gap_below prev r)) (write_block o l prev r)
unfolding write_block
write_block-IsLong o l prev r = elim (Bool-cases (blocks_of_gap (gap_below prev r) == 1)) [
  | inl t ↦
      let one : blocks_of_gap (gap_below prev r) ≡ 1 = ground arith in
      rw (write_block, t)
        (equal-IsLong (1 + byte_count l) _ _ (rw one (omega arith)) (
          then_write-IsLong 1 (byte_count l) (ok ((gap_below prev r % 256) ∷ []))
            (write_len o l (range_length r)) refl (write_len-IsLong o l (range_length r))))
  | inr t ↦
      rw (write_block, t)
        (write_long_gap-IsLong o l (blocks_of_gap (gap_below prev r)) (gap_below prev r)
          (range_length r))
]

-- The blocks after the first one, with how many they are.
record IsWritten (l : PacketNumberLen) (before : ℕ) (r : Result WireError (List ℕ) × ℕ)
    : Type 0 where
  blocks : ℕ
  counted : r.1 ≡ before + blocks
  long : IsLong ((1 + byte_count l) * blocks) r.0

write_blocks-IsWritten :
    (o : ByteOrder) (l : PacketNumberLen) (num written : ℕ) (prev : AckRange)
    (ranges : List AckRange)
    → IsWritten l written (write_blocks o l num written prev ranges)
unfolding write_blocks
write_blocks-IsWritten o l num written prev [] = record {
  blocks = 0;
  counted = omega arith;
  long = omega arith;
}
write_blocks-IsWritten o l num written prev (r ∷ rest) =
    let n = blocks_of_gap (gap_below prev r) in
    let more = write_blocks-IsWritten o l num (written + n) r rest in
    elim (Bool-cases (leb num (written + n))) [
      | inl t ↦
          rw (write_blocks, t)
            record { blocks = n; counted = refl; long = write_block-IsLong o l prev r }
      | inr t ↦
          rw (write_blocks, t)
            record {
              blocks = n + more.blocks;
              counted = omega (arith, more.counted);
              long =
                  equal-IsLong ((1 + byte_count l) * n + (1 + byte_count l) * more.blocks) _ _
                    (omega arith)
                    (then_write-IsLong _ _ _ _ (write_block-IsLong o l prev r) more.long);
            }
    ]

fails-IsLong :
    (n : ℕ) (v : Result WireError (List ℕ)) (e : WireError) → IsLong n (v then_write err e)
fails-IsLong n (ok v) e = tt
fails-IsLong n (err x) e = tt

-- The field for the number of blocks is there where there are several ranges.
abbrev num_blocks_length : List AckRange → ℕ
num_blocks_length [] = 0
num_blocks_length (r ∷ rest) = 1

num_blocks_field-IsLong :
    (f : AckFrame) (ranges : List AckRange)
    → f.ack_ranges ≡ ranges
    → IsLong (num_blocks_length ranges) (num_blocks_field f)
num_blocks_field-IsLong f [] e = rw e refl
num_blocks_field-IsLong f (r ∷ rest) e =
    let several : ltb 0 (length (r ∷ rest)) ≡ true = ground arith in
    rw (e, several)
      (either-IsLong 1 (ltb 0xff (num_writable_ranges (r ∷ rest))) (err panics)
        (ok ((num_writable_ranges (r ∷ rest) - 1) ∷ [])) tt refl)

-- The blocks with their gaps; the first one has none.
abbrev ranges_length : List AckRange → PacketNumberLen → ℕ
ranges_length [] l = byte_count l
ranges_length (r ∷ rest) l =
    byte_count l + (1 + byte_count l) * (num_writable_ranges (r ∷ rest) - 1)

write_ranges-IsLong :
    (o : ByteOrder) (l : PacketNumberLen) (f : AckFrame) (ranges : List AckRange)
    → IsLong (ranges_length ranges l) (write_ranges o l f ranges)
unfolding write_ranges
write_ranges-IsLong o l f [] =
    write_len-IsLong o l (add_u64 (sub_u64 f.largest_acked f.lowest_acked) 1)
write_ranges-IsLong o l f (r ∷ rest) =
    either-IsLong _ (not (f.largest_acked == r.last)) (err inconsistent_largest_acked) _ tt (
      either-IsLong _ (not (f.lowest_acked == last_first (r ∷ rest)))
        (err inconsistent_lowest_acked) _ tt (all_written (Bool-cases (num == written.1))))
  where
    num : ℕ
    num = num_writable_ranges (r ∷ rest)

    written : Result WireError (List ℕ) × ℕ
    written = write_blocks o l num 1 r rest

    first : Result WireError (List ℕ)
    first = write_len o l (add_u64 (sub_u64 f.largest_acked r.first) 1)

    all_written :
        ((num == written.1) ≡ true) ⊎ ((num == written.1) ≡ false)
        → IsLong (byte_count l + (1 + byte_count l) * (num - 1)) (
            first
            then_write written.0
            then_write (if num == written.1 then ok [] else err inconsistent_ranges_written))
    all_written (inr t) =
        rw t (fails-IsLong _ (first then_write written.0) inconsistent_ranges_written)
    all_written (inl t) =
        let k = write_blocks-IsWritten o l num 1 r rest in
        let same : k.blocks ≡ num - 1 = ground (arith, k.counted) in
        rw t (
          equal-IsLong (byte_count l + (1 + byte_count l) * k.blocks + 0) _ _
            (rw same (omega arith))
            (then_write-IsLong _ 0 (first then_write written.0) (ok [])
              (then_write-IsLong _ _ first written.0 (write_len-IsLong o l _) k.long) refl))

ranges_length_lem :
    (ranges : List AckRange) (l : PacketNumberLen)
    → num_blocks_length ranges + ranges_length ranges l ≡ ack_blocks_length ranges l
unfolding ack_blocks_length num_writable_ranges
ranges_length_lem [] l = ground arith
ranges_length_lem (r ∷ rest) l =
    let several : ltb 0 (length (r ∷ rest)) ≡ true = ground arith in
    let one_less : num_writable_ranges (r ∷ rest) - 1 ≡ count_nack_ranges 0 r rest = omega arith in
    rw (several, one_less) (omega arith)

-- The type byte and the path.
head_of : AckFrame → List ℕ
head_of f = ack_type_byte f ∷ (if f.path_id == 0 then [] else f.path_id ∷ [])

head_of-IsLong : (f : AckFrame) → IsLong (1 + (if f.path_id == 0 then 0 else 1)) (ok (head_of f))
unfolding head_of
head_of-IsLong f = ground arith

write_ack_frame-IsLong :
    (version : ℤ) (f : AckFrame) → IsLong (ack_min_length f) (write_ack_frame version f)
unfolding write_ack_frame ack_min_length head_of write_ufloat16 write_uint16
write_ack_frame-IsLong version f =
    let o = get_byte_order version in
    let n = get_packet_number_length f.largest_acked in
    let l = get_missing_sequence_number_delta_len f in
    let last : Result WireError (List ℕ) = ok (0 ∷ f.groups ∷ uint_bytes o 2 f.epoch) in
    let delay : Result WireError (List ℕ) = ok (write_ufloat16 o f.delay) in
    equal-IsLong _ _ _ (ground (arith, ranges_length_lem f.ack_ranges l)) (
      then_write-IsLong _ 4 _ last
        (then_write-IsLong _ (ranges_length f.ack_ranges l) _ (write_ranges o l f f.ack_ranges)
          (then_write-IsLong _ (num_blocks_length f.ack_ranges) _ (num_blocks_field f)
            (then_write-IsLong _ 2 _ delay
              (then_write-IsLong _ (byte_count n) (ok (head_of f)) (write_len o n f.largest_acked)
                (head_of-IsLong f) (write_len-IsLong o n f.largest_acked))
              (length-uint_bytes o 2 _))
            (num_blocks_field-IsLong f f.ack_ranges refl))
          (write_ranges-IsLong o l f f.ack_ranges))
        (ground (arith, length-uint_bytes o 2 f.epoch)))

-- Where the writer of ACK frames returns bytes, they are as many as MinLength says.
pub length-write_ack_frame :
    (version : ℤ) (f : AckFrame) (w : List ℕ)
    → write_ack_frame version f ≡ ok w
    → length w ≡ ack_min_length f
length-write_ack_frame version f w e =
    subst (IsLong (ack_min_length f)) e (write_ack_frame-IsLong version f)
