-- ===== src/Wire/Bytes/Order.antt =====
-- Reading back what was written, in either byte order.
use mpquic_sbd.Base.{
  ℕ, zero, suc, ◌+◌, ◌*◌, ◌/◌, ◌%◌, ◌^◌, ◌≤◌, ◌<◌, ◌≡◌, refl, ◌∙◌, ap, List, ◌++◌, ok, arith,
  length, take-append, drop-append, length-append,
}
use mpquic_sbd.Wire.Bytes.{
  ByteOrder, little_endian, big_endian, read_full, read_big, read_little, read_uint_n, big_bytes,
  little_bytes, uint_bytes, read_uint16, read_uint32, read_uint64, write_uint16, write_uint32,
  write_uint64,
}
use native.Mathlib.Nat.{div-add-mod, mod-lt, add-mul-mod_self_left, mod-eq_of_lt, pow-succ'}

-- One more byte in front of `m`.
mod_split : (v m : ℕ) → 0 < m → v % (256 * m) ≡ v / m % 256 * m + v % m
mod_split v m h =
    ap (λ (t : ℕ). t % (256 * m)) whole
    ∙ add-mul-mod_self_left low (256 * m) (v / m / 256)
    ∙ mod-eq_of_lt small
  where
    low : ℕ
    low = v / m % 256 * m + v % m

    whole : v ≡ low + 256 * m * (v / m / 256)
    whole = omega (arith, div-add-mod v m, ap (λ (t : ℕ). t * m) (div-add-mod (v / m) 256))

    digit : v / m % 256 * m ≤ 255 * m
    digit = grind arith

    small : low < 256 * m
    small = omega (arith, digit, mod-lt v h)

pow_pos : (n : ℕ) → 0 < 256 ^ n
pow_pos zero = omega arith
pow_pos (suc n) = rw pow-succ' (omega (arith, pow_pos n))

read_big-big_bytes :
    (n v res : ℕ) (rest : List ℕ)
    → read_big n res (big_bytes n v ++ rest) ≡ ok (res + v % 256 ^ n, rest)
unfolding read_big big_bytes
read_big-big_bytes zero v res rest = ap (λ (t : ℕ). ok (t, rest)) (omega arith)
read_big-big_bytes (suc n) v res rest =
    read_big-big_bytes n v (res + v / 256 ^ n % 256 * 256 ^ n) rest
    ∙ ap (λ (t : ℕ). ok (t, rest)) sums
  where
    sums : res + v / 256 ^ n % 256 * 256 ^ n + v % 256 ^ n ≡ res + v % 256 ^ suc n
    sums = rw pow-succ' (omega (arith, mod_split v (256 ^ n) (pow_pos n)))

-- One more byte behind: `(v / 256) % m` is shifted by it.
mod_split_low : (v m : ℕ) → 0 < m → v % (256 * m) ≡ v % 256 + v / 256 % m * 256
mod_split_low v m h =
    ap (λ (t : ℕ). t % (256 * m)) whole
    ∙ add-mul-mod_self_left low (256 * m) (v / 256 / m)
    ∙ mod-eq_of_lt small
  where
    low : ℕ
    low = v % 256 + v / 256 % m * 256

    whole : v ≡ low + 256 * m * (v / 256 / m)
    whole = omega (arith, div-add-mod v 256, ap (λ (t : ℕ). t * 256) (div-add-mod (v / 256) m))

    small : low < 256 * m
    small = omega (arith, mod-lt (v / 256) h)

read_little-little_bytes :
    (n v place res : ℕ) (rest : List ℕ)
    → read_little n place res (little_bytes n v ++ rest) ≡ ok (res + v % 256 ^ n * place, rest)
unfolding read_little little_bytes
read_little-little_bytes zero v place res rest =
    let none_left : v % 256 ^ 0 ≡ 0 = omega arith in
    ap (λ (t : ℕ). ok (t, rest)) (omega (arith, ap (λ (t : ℕ). t * place) none_left))
read_little-little_bytes (suc n) v place res rest =
    read_little-little_bytes n (v / 256) (place * 256) (res + v % 256 * place) rest
    ∙ ap (λ (t : ℕ). ok (t, rest)) sums
  where
    sums : res + v % 256 * place + v / 256 % 256 ^ n * (place * 256) ≡ res + v % 256 ^ suc n * place
    sums =
        rw pow-succ'
          (omega (arith, ap (λ (t : ℕ). t * place) (mod_split_low v (256 ^ n) (pow_pos n))))

-- In either byte order the `n` bytes written for a number read back as the value modulo 256 ^ n, and what follows
-- them is left unread.
pub read_uint_n-uint_bytes :
    (o : ByteOrder) (n v : ℕ) (rest : List ℕ)
    → read_uint_n o n (uint_bytes o n v ++ rest) ≡ ok (v % 256 ^ n, rest)
unfolding read_uint_n uint_bytes
read_uint_n-uint_bytes big_endian n v rest =
    read_big-big_bytes n v 0 rest ∙ ap (λ (t : ℕ). ok (t, rest)) (omega arith)
read_uint_n-uint_bytes little_endian n v rest =
    read_little-little_bytes n v 1 0 rest ∙ ap (λ (t : ℕ). ok (t, rest)) (omega arith)

length-big_bytes : (n v : ℕ) → length (big_bytes n v) ≡ n
unfolding big_bytes
length-big_bytes zero v = refl
length-big_bytes (suc n) v = ap suc (length-big_bytes n v)

length-little_bytes : (n v : ℕ) → length (little_bytes n v) ≡ n
unfolding little_bytes
length-little_bytes zero v = refl
length-little_bytes (suc n) v = ap suc (length-little_bytes n (v / 256))

pub length-uint_bytes : (o : ByteOrder) (n v : ℕ) → length (uint_bytes o n v) ≡ n
unfolding uint_bytes
length-uint_bytes big_endian n v = length-big_bytes n v
length-uint_bytes little_endian n v = length-little_bytes n v

pub read_full-append : (xs rest : List ℕ) → read_full (length xs) (xs ++ rest) ≡ ok (xs, rest)
unfolding read_full
read_full-append xs rest =
    ground (arith, length-append xs rest, take-append xs rest, drop-append xs rest)

-- A field of the width that its writer uses reads back as it was.
module _ (o : ByteOrder) (v : ℕ) (rest : List ℕ) where
  pub read-write_uint16 : v < 2 ^ 16 → read_uint16 o (write_uint16 o v ++ rest) ≡ ok (v, rest)
  unfolding read_uint16 write_uint16
  read-write_uint16 h =
      read_uint_n-uint_bytes o 2 v rest ∙ ap (λ (t : ℕ). ok (t, rest)) (omega arith)

  pub read-write_uint32 : v < 2 ^ 32 → read_uint32 o (write_uint32 o v ++ rest) ≡ ok (v, rest)
  unfolding read_uint32 write_uint32
  read-write_uint32 h =
      read_uint_n-uint_bytes o 4 v rest ∙ ap (λ (t : ℕ). ok (t, rest)) (omega arith)

  pub read-write_uint64 : v < 2 ^ 64 → read_uint64 o (write_uint64 o v ++ rest) ≡ ok (v, rest)
  unfolding read_uint64 write_uint64
  read-write_uint64 h =
      read_uint_n-uint_bytes o 8 v rest ∙ ap (λ (t : ℕ). ok (t, rest)) (omega arith)
