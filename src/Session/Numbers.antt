-- ===== src/Session/Numbers.antt =====
-- quic-go/packet_number_generator.go: the numbers of a path's packets. What rand.Read gives is an
-- argument of each call: none is an error.
use mpquic_sbd.Base.{
  ℕ, zero, suc, ◌+◌, ◌*◌, ◌/◌, ◌%◌, ◌^◌, ◌<◌, ◌≡◌, ◌≢◌, ◌⊎◌, refl, ap, ◌∙◌, inl, inr, List, [], ◌∷◌,
  Option, none, some, ◌==◌, length, if◌then◌else◌, Bool-cases, arith,
}
use mpquic_sbd.Protocol.{add_u64, sub_u64}

pub record PacketNumberGenerator : Type 0 where
  pub average_period : ℕ
  pub next : ℕ
  pub next_to_skip : ℕ

unfoldable pub new_packet_number_generator : ℕ → PacketNumberGenerator
new_packet_number_generator average_period = record {
  average_period = average_period;
  next = 1;
  next_to_skip = 0;
}

unfoldable pub peek : PacketNumberGenerator → ℕ
peek p = p.next

-- `num * (averagePeriod - 1) / (math.MaxUint16 / 2)` on uint64.
abbrev pub skip_of : ℕ → ℕ → ℕ
skip_of num average_period = num * sub_u64 average_period 1 % 2 ^ 64 / 32767

unfoldable pub generate_new_skip : Option ℕ → PacketNumberGenerator → PacketNumberGenerator
generate_new_skip none p = p
generate_new_skip (some num) p = record p {
  next_to_skip = add_u64 (add_u64 p.next 2) (skip_of num p.average_period);
}

unfoldable pub pop : Option ℕ → PacketNumberGenerator → ℕ × PacketNumberGenerator
pop random p =
    let next : PacketNumberGenerator = record p { next = add_u64 p.next 1 } in
    let skipping : PacketNumberGenerator = record p { next = add_u64 (add_u64 p.next 1) 1 } in
    (p.next, if add_u64 p.next 1 == p.next_to_skip then generate_new_skip random skipping else next)

-- The numbers of one Pop after the other.
abbrev pub pops : List (Option ℕ) → PacketNumberGenerator → List ℕ
pops [] p = []
pops (random ∷ rest) p = (pop random p).0 ∷ pops rest (pop random p).1

abbrev pub count_from : ℕ → ℕ → List ℕ
count_from first zero = []
count_from first (suc n) = first ∷ count_from (first + 1) n

pops_in_order :
    (randoms : List (Option ℕ)) (p : PacketNumberGenerator)
    → p.next_to_skip ≡ 0
    → p.next + length randoms < 2 ^ 64
    → pops randoms p ≡ count_from p.next (length randoms)
unfolding pop
pops_in_order [] p e h = refl
pops_in_order (random ∷ rest) p e h =
    let unwrapped : add_u64 p.next 1 ≡ p.next + 1 = omega (arith, h) in
    let after : (pop random p).1 ≡ record p { next = p.next + 1 } = ground arith in
    ap (λ l. p.next ∷ l)
      (ap (pops rest) after
        ∙ pops_in_order rest (record p { next = p.next + 1 }) e (omega (arith, h)))

-- The packet numbers that a new generator gives are 1, 2, 3 and so on without a gap, as long as they are
-- below 2 ^ 64, whatever the random numbers are.
pub pops-new_packet_number_generator :
    (average_period : ℕ) (randoms : List (Option ℕ))
    → 1 + length randoms < 2 ^ 64
    → pops randoms (new_packet_number_generator average_period) ≡ count_from 1 (length randoms)
unfolding new_packet_number_generator
pops-new_packet_number_generator average_period randoms h =
    pops_in_order randoms (new_packet_number_generator average_period) refl h

u64_share-bounded : (n : ℕ) → n % 2 ^ 64 / 32767 < 2 ^ 50
u64_share-bounded n = omega arith

skip_of-bounded : (num average_period : ℕ) → skip_of num average_period < 2 ^ 50
skip_of-bounded num average_period = u64_share-bounded (num * sub_u64 average_period 1)

-- After a number was skipped, the one to skip next is not the number after the next one.
generate_new_skip-apart :
    (random : Option ℕ) (p : PacketNumberGenerator)
    → p.next < 2 ^ 63 + 2
    → p.next_to_skip + 1 ≡ p.next
    → ((generate_new_skip random p).next ≡ p.next)
      × ((generate_new_skip random p).next_to_skip ≢ p.next + 1)
unfolding generate_new_skip
generate_new_skip-apart none p h e = (refl, λ f. omega arith)
generate_new_skip-apart (some num) p h e =
    let small = skip_of-bounded num p.average_period in (refl, λ f. omega arith)

no_skip :
    (random : Option ℕ) (p : PacketNumberGenerator)
    → p.next < 2 ^ 63 + 2
    → p.next_to_skip ≢ p.next + 1
    → (pop random p).1.next ≡ p.next + 1
unfolding pop
no_skip random p h e = elim (Bool-cases (add_u64 p.next 1 == p.next_to_skip)) [
  | inl t ↦ absurd (ground arith)
  | inr t ↦ ground arith
]

-- Where the next number is below 2 ^ 63, Pop moves it by one or by two, and by one in the call that
-- follows a move by two: no two numbers that follow each other are skipped.
pub pop_skips_alone :
    (random again : Option ℕ) (p : PacketNumberGenerator)
    → p.next < 2 ^ 63
    → ((pop random p).1.next ≡ p.next + 1)
      ⊎ (((pop random p).1.next ≡ p.next + 2) × ((pop again (pop random p).1).1.next ≡ p.next + 3))
unfolding pop
pop_skips_alone random again p h = elim (Bool-cases (add_u64 p.next 1 == p.next_to_skip)) [
  | inr t ↦ inl (ground arith)
  | inl t ↦
      let skipping : PacketNumberGenerator = record p { next = add_u64 (add_u64 p.next 1) 1 } in
      let moved : skipping.next ≡ p.next + 2 = omega (arith, h) in
      let apart =
        generate_new_skip-apart random skipping (omega (arith, moved, h)) (ground arith) in
      let after : (pop random p).1 ≡ generate_new_skip random skipping = ground arith in
      inr (
        ap (λ (q : PacketNumberGenerator). q.next) after ∙ apart.0 ∙ moved,
        ap (λ (q : PacketNumberGenerator). (pop again q).1.next) after
            ∙ no_skip again (generate_new_skip random skipping) (omega (arith, apart.0, moved, h))
                (λ f. apart.1 (f ∙ ap (λ n. n + 1) apart.0))
            ∙ omega (arith, apart.0, moved),
      )
]
