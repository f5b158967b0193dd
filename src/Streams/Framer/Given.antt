-- ===== src/Streams/Framer/Given.antt =====
-- quic-go/stream_framer.go: the data that a stream gives to a frame.
use mpquic_sbd.Base.{
  ℕ, ◌+◌, ◌^◌, ◌≤◌, ◌<◌, ◌≡◌, refl, subst, inl, inr, List, Option, none, some, ◌==◌, length,
  Bool-cases, Option-cases, arith, length-take,
}
use mpquic_sbd.Flow.Controller.{ConnectionParameters}
use mpquic_sbd.Streams.Sorter.Delivery.{segment}
use mpquic_sbd.Streams.Stream.{Stream}
use mpquic_sbd.Streams.Stream.Taken.{IsPending, get_data_for_writing-IsTaken}
use mpquic_sbd.Streams.Stream.Methods.{len_of_data_for_writing, get_data_for_writing}
use mpquic_sbd.Streams.Framer.{content_of}
use mpquic_sbd.Streams.Framer.Normal.{taken_of}

-- What a stream has given: the next bytes of it, at most as many as asked for.
pub record IsGiven (stream : ℕ → ℕ) (max_len : ℕ) (s : Stream) (taken : Option (List ℕ) × Stream)
    : Type 0 where
  pub pending : IsPending stream taken.1.write_offset taken.1.data_for_writing
  pub bytes : content_of taken.0 ≡ segment stream s.write_offset (length (content_of taken.0))
  pub bounded : s.write_offset + length (content_of taken.0) < 2 ^ 64
  pub few : length (content_of taken.0) ≤ max_len
  pub stream_id : taken.1.stream_id ≡ s.stream_id

pending_offset :
    (stream : ℕ → ℕ) (offset : ℕ) (bytes : Option (List ℕ))
    → IsPending stream offset bytes
    → offset < 2 ^ 64
pending_offset stream offset none p = p
pending_offset stream offset (some rest) p = omega (arith, p.1)

nothing-IsGiven :
    (stream : ℕ → ℕ) (max_len : ℕ) (s : Stream)
    → IsPending stream s.write_offset s.data_for_writing
    → IsGiven stream max_len s (none, s)
nothing-IsGiven stream max_len s p = record {
  pending = p;
  bytes = refl;
  bounded = omega (arith, pending_offset stream s.write_offset s.data_for_writing p);
  few = omega arith;
  stream_id = refl;
}

nothing_taken : (s s' : Stream) (max_len : ℕ) → get_data_for_writing s max_len ≡ (none, s') → s ≡ s'
unfolding get_data_for_writing
nothing_taken s s' max_len e = elim (Option-cases s.error) [
  | inr (failed, e2) ↦ ground arith
  | inl fine ↦ elim (Option-cases s.data_for_writing) [
    | inl e2 ↦ ground arith
    | inr (rest, e2) ↦ absurd (ground arith)
  ]
]

few_taken :
    (s s' : Stream) (max_len : ℕ) (d : List ℕ)
    → get_data_for_writing s max_len ≡ (some d, s')
    → length d ≤ max_len
unfolding get_data_for_writing
few_taken s s' max_len d e = elim (Option-cases s.error) [
  | inr (failed, e2) ↦ absurd (ground arith)
  | inl fine ↦ elim (Option-cases s.data_for_writing) [
    | inl e2 ↦ absurd (ground arith)
    | inr (rest, e2) ↦ ground (arith, length-take max_len rest)
  ]
]

get_data_for_writing-IsGiven :
    (stream : ℕ → ℕ) (max_len : ℕ) (s : Stream) (taken : Option (List ℕ) × Stream)
    → IsPending stream s.write_offset s.data_for_writing
    → get_data_for_writing s max_len ≡ taken
    → IsGiven stream max_len s taken
get_data_for_writing-IsGiven stream max_len s (none, s') p e =
    subst (λ z. IsGiven stream max_len s (none, z)) (nothing_taken s s' max_len e)
      (nothing-IsGiven stream max_len s p)
get_data_for_writing-IsGiven stream max_len s (some d, s') p e =
    let k = get_data_for_writing-IsTaken stream s s' max_len d p e in
    record {
      pending = k.pending;
      bytes = k.bytes_of;
      bounded = k.bounded;
      few = few_taken s s' max_len d e;
      stream_id = k.stream_id;
    }

-- Where the data that wait are the next bytes of the stream, so are those that it gives.
pub taken_of-IsGiven :
    (stream : ℕ → ℕ) (max_len : ℕ) (s : Stream)
    → IsPending stream s.write_offset s.data_for_writing
    → (params : ConnectionParameters) → IsGiven stream max_len s (taken_of params s max_len)
taken_of-IsGiven stream max_len s p params = elim (Bool-cases (len_of_data_for_writing s == 0)) [
  | inl e ↦ rw e (nothing-IsGiven stream max_len s p)
  | inr e ↦ rw e (get_data_for_writing-IsGiven stream max_len s _ p refl)
]
