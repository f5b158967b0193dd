-- ===== src/Wire/Float16/Precision.antt =====
-- How much of a duration the 16 bits keep.
use mpquic_sbd.Base.{
  ℕ, zero, suc, ◌+◌, ◌-◌, ◌*◌, ◌/◌, ◌^◌, ◌≤◌, ◌<◌, ◌≡◌, refl, ap, ◌∙◌, arith, ltb, leb, leb→le, inl,
  inr, Bool-cases, false, if◌then◌else◌,
}
use mpquic_sbd.Wire.Float16.{
  Shifted, shift_down, normalise, encode_ufloat16, decode_ufloat16, max_value,
}
use native.Mathlib.Decide.{dec_lt}
use native.Mathlib.Nat.{
  mul-le-mul, le_refl, pow-succ', div-div-eq-div-mul, div-lt_iff_lt-mul, le-div_iff_mul-le,
  pow-le-pow_right, div-mul-le_self, lt-div-mul-add,
}

pow_add : (a b : ℕ) → 2 ^ (a + b) ≡ 2 ^ a * 2 ^ b
pow_add a zero = let e : a + 0 ≡ a = omega arith in rw e (omega arith)
pow_add a (suc b) =
    let e : a + suc b ≡ suc (a + b) = omega arith in
    rw (e, pow-succ')
      (omega (
        arith,
        ap (λ (t : ℕ). 2 * t) (pow_add a b),
        pow-succ' 2 b,
        ap (λ (t : ℕ). 2 ^ a * t) (pow-succ' 2 b),
      ))

pow_pos : (n : ℕ) → 0 < 2 ^ n
pow_pos zero = omega arith
pow_pos (suc n) = rw pow-succ' (omega (arith, pow_pos n))

-- What the rounds done so far keep of `v`: it is shifted down by the exponent, to `bits` bits more
-- than it is to have.
record Keeps (v bits : ℕ) (s : Shifted) : Type 0 where
  exact : s.value ≡ v / 2 ^ s.exponent
  high : 2 ^ 11 ≤ s.value
  low : s.value < 2 ^ (11 + bits)

far_shift :
    (v n : ℕ) (s : Shifted)
    → Keeps v (n + n) s
    → 2 ^ (11 + n) ≤ s.value
    → Keeps v n (record { exponent = s.exponent + n; value = s.value / 2 ^ n })
far_shift v n s k far = record {
  exact = rw (k.exact, pow_add) (div-div-eq-div-mul v (2 ^ s.exponent) (2 ^ n));
  high = (le-div_iff_mul-le (pow_pos n)).1 (omega (arith, pow_add 11 n));
  low = (div-lt_iff_lt-mul (pow_pos n)).1 (rw (← pow_add) (rw regroup k.low));
}
  where
    regroup : 11 + n + n ≡ 11 + (n + n)
    regroup = omega arith

shift_down-Keeps : (v n : ℕ) (s : Shifted) → Keeps v (n + n) s → Keeps v n (shift_down n s)
unfolding shift_down
shift_down-Keeps v n s k = elim (Bool-cases (leb (2 ^ (11 + n)) s.value)) [
  | inl far ↦ rw far (far_shift v n s k (leb→le _ _ far))
  | inr near ↦ rw near (record { exact = k.exact; high = k.high; low = ground arith })
]

normalise-Keeps : (v : ℕ) → 2 ^ 12 ≤ v → v < max_value → Keeps v 1 (normalise v)
unfolding normalise
normalise-Keeps v h k = shift_down-Keeps v 1 _ (
    shift_down-Keeps v 2 _ (
      shift_down-Keeps v 4 _ (
        shift_down-Keeps v 8 _ (
          shift_down-Keeps v 16 _
            (record { exact = omega arith; high = omega arith; low = omega arith })))))

-- A value in the range of the format is cut to its highest twelve bits.
record Cut (v : ℕ) (s : Shifted) : Type 0 where
  below : s.value * 2 ^ s.exponent ≤ v
  above : v < s.value * 2 ^ s.exponent + 2 ^ s.exponent
  exponent_pos : 0 < s.exponent
  exponent_bound : s.exponent ≤ 30
  high : 2 ^ 11 ≤ s.value
  low : s.value < 2 ^ 12

exponent-pos : (v e : ℕ) → 2 ^ 12 ≤ v → v / 2 ^ e < 2 ^ 12 → 0 < e
exponent-pos v zero h k = absurd (omega arith)
exponent-pos v (suc e) h k = omega arith

exponent-le : (v e value : ℕ) → 2 ^ 11 ≤ value → value * 2 ^ e ≤ v → v < max_value → e ≤ 30
exponent-le v e value h k m = elim (dec_lt 30 e) [
  | yes big ↦
      let power : 2 ^ 31 ≤ 2 ^ e = pow-le-pow_right (omega arith) big in
      let product : 2 ^ 11 * 2 ^ 31 ≤ value * 2 ^ e = mul-le-mul h power in absurd (omega arith)
  | no small ↦ omega arith
]

normalise-Cut : (v : ℕ) → 2 ^ 12 ≤ v → v < max_value → Cut v (normalise v)
normalise-Cut v h k =
    let n = normalise-Keeps v h k in
    let e = (normalise v).exponent in
    let under : v / 2 ^ e * 2 ^ e ≤ v = div-mul-le_self v (2 ^ e) in
    record {
      below = rw n.exact under;
      above = rw n.exact (lt-div-mul-add (pow_pos e));
      exponent_pos = exponent-pos v e h (rw (← n.exact) (omega (arith, n.low)));
      exponent_bound = exponent-le v e (normalise v).value n.high (rw n.exact under) k;
      high = n.high;
      low = n.low;
    }

decode_fields :
    (value e : ℕ)
    → 2 ^ 11 ≤ value
    → value < 2 ^ 12
    → 0 < e
    → e ≤ 30
    → decode_ufloat16 (value + e * 2 ^ 11) ≡ value * 2 ^ e
unfolding decode_ufloat16
decode_fields value e h l p b =
    let wide : ltb (value + e * 2 ^ 11) (2 ^ 12) ≡ false = ground arith in
    let found : (value + e * 2 ^ 11) / 2 ^ 11 - 1 ≡ e = omega arith in
    let mantissa : value + e * 2 ^ 11 - e * 2 ^ 11 ≡ value = omega arith in
    rw (wide, found, mantissa) refl

encode_in_range :
    (v : ℕ)
    → 2 ^ 12 ≤ v
    → v < max_value
    → encode_ufloat16 v ≡ (normalise v).value + (normalise v).exponent * 2 ^ 11
unfolding encode_ufloat16
encode_in_range v h k =
    let c = normalise-Cut v h k in ground (arith, c.high, c.low, c.exponent_bound)

encode_small : (v : ℕ) → v < 2 ^ 12 → decode_ufloat16 (encode_ufloat16 v) ≡ v
unfolding encode_ufloat16 decode_ufloat16
encode_small v h = ground arith

-- The 16 bits of a duration below the maximum decode to at most the duration, and are at most one
-- part in 2048 below it; a duration below 4096 is kept as it is.
pub decode-encode_ufloat16 :
    (v : ℕ)
    → v < max_value
    → (decode_ufloat16 (encode_ufloat16 v) ≤ v)
      × ((v - decode_ufloat16 (encode_ufloat16 v)) * 2 ^ 11 ≤ (if ltb v (2 ^ 12) then 0 else v))
decode-encode_ufloat16 v k = elim (dec_lt v (2 ^ 12)) [
  | yes small ↦
      let e : decode_ufloat16 (encode_ufloat16 v) ≡ v = encode_small v small in
      (omega (arith, e), ground (arith, e))
  | no large ↦ in_range (omega arith)
]
  where
    in_range :
        2 ^ 12 ≤ v
        → (decode_ufloat16 (encode_ufloat16 v) ≤ v)
          × ((v - decode_ufloat16 (encode_ufloat16 v)) * 2 ^ 11 ≤ (if ltb v (2 ^ 12) then 0 else v))
    in_range h =
        let c = normalise-Cut v h k in
        let s = normalise v in
        let e : decode_ufloat16 (encode_ufloat16 v) ≡ s.value * 2 ^ s.exponent =
          ap decode_ufloat16 (encode_in_range v h k)
          ∙ decode_fields s.value s.exponent c.high c.low c.exponent_pos c.exponent_bound in
        let part : 2 ^ 11 * 2 ^ s.exponent ≤ s.value * 2 ^ s.exponent =
          mul-le-mul c.high (le_refl (2 ^ s.exponent)) in
        (
          omega (arith, e, c.below),
          (let error : (v - decode_ufloat16 (encode_ufloat16 v)) * 2 ^ 11 ≤ v =
                omega (arith, e, c.below, c.above) in
              ground arith),
        )
