-- ===== src/Streams/Stream/Taken.antt =====
-- quic-go/stream.go: what getDataForWriting takes of a stream.
use mpquic_sbd.Base.{
  ℕ, ◌+◌, ◌^◌, ◌<◌, ◌≡◌, refl, sym, ◌∙◌, ap, subst, inl, inr, List, Option, none, some, ltb, length,
  take, drop, if◌then◌else◌, Bool-cases, Option-cases, arith, length-take, length-drop,
}
use mpquic_sbd.Streams.Sorter.Delivery.{segment, segment-cong, drop-segment, take-segment}
use mpquic_sbd.Streams.Stream.{Stream}
use mpquic_sbd.Streams.Stream.Methods.{get_data_for_writing, sent_data}

-- The data that waits to be sent are the bytes of the stream from the write offset on.
abbrev pub IsPending : (ℕ → ℕ) → ℕ → Option (List ℕ) → Type 0
IsPending stream offset none = offset < 2 ^ 64
IsPending stream offset (some rest) =
    (rest ≡ segment stream offset (length rest)) × (offset + length rest < 2 ^ 64)

-- What getDataForWriting takes are the next bytes of the stream.
pub record IsTaken (stream : ℕ → ℕ) (s s' : Stream) (bytes : List ℕ) : Type 0 where
  pub pending : IsPending stream s'.write_offset s'.data_for_writing
  pub bytes_of : bytes ≡ segment stream s.write_offset (length bytes)
  pub bounded : s.write_offset + length bytes < 2 ^ 64
  pub offset : s'.write_offset ≡ s.write_offset + length bytes
  pub queue : s'.frame_queue ≡ s.frame_queue
  pub read_offset : s'.read_offset ≡ s.read_offset
  pub stream_id : s'.stream_id ≡ s.stream_id

module _ (stream : ℕ → ℕ) where
  sent_data-IsTaken :
      (s s' : Stream) (ret d : List ℕ) (left : Option (List ℕ))
      → ret ≡ segment stream s.write_offset (length ret)
      → s.write_offset + length ret < 2 ^ 64
      → IsPending stream (s.write_offset + length ret) left
      → sent_data s ret left ≡ (some d, s')
      → IsTaken stream s s' d
  sent_data-IsTaken s s' ret d left b h p e =
      let same_d : ret ≡ d = ground arith in
      let same : (sent_data s ret left).1 ≡ s' = ground arith in
      subst (λ z. IsTaken stream s z d) same
        (subst (IsTaken stream s (sent_data s ret left).1) same_d record {
          pending = subst (λ n. IsPending stream n left) (omega arith) p;
          bytes_of = b;
          bounded = h;
          offset = omega arith;
          queue = refl;
          read_offset = refl;
          stream_id = refl;
        })

  some-IsTaken :
      (s s' : Stream) (max : ℕ) (rest d : List ℕ)
      → IsPending stream s.write_offset (some rest)
      → (if ltb max (length rest)
          then sent_data s (take max rest) (some (drop max rest))
          else sent_data s rest none)
        ≡ (some d, s')
      → IsTaken stream s s' d
  some-IsTaken s s' max rest d p e = elim (Bool-cases (ltb max (length rest))) [
    | inl t ↦
        let short : max < length rest = ground arith in
        let taken : length (take max rest) ≡ max = omega (arith, length-take max rest) in
        sent_data-IsTaken s s' (take max rest) d (some (drop max rest))
          (ap (take max) p.0
            ∙ take-segment stream s.write_offset max (length rest)
            ∙ segment-cong stream _ _ _ _ refl (omega (arith, taken)))
          (omega (arith, taken, p.1))
          (
            ap (drop max) p.0
                ∙ drop-segment stream s.write_offset max (length rest)
                ∙ segment-cong stream _ _ _ _ (omega (arith, taken)) (sym (length-drop max rest)),
            omega (arith, taken, p.1, length-drop max rest),
          )
          (ground arith)
    | inr t ↦ sent_data-IsTaken s s' rest d none p.0 p.1 p.1 (ground arith)
  ]

  pub get_data_for_writing-IsTaken :
      (s s' : Stream) (max : ℕ) (d : List ℕ)
      → IsPending stream s.write_offset s.data_for_writing
      → get_data_for_writing s max ≡ (some d, s')
      → IsTaken stream s s' d
  unfolding get_data_for_writing
  get_data_for_writing-IsTaken s s' max d p e = elim (Option-cases s.error) [
    | inr (failed, e2) ↦ absurd (ground arith)
    | inl fine ↦ elim (Option-cases s.data_for_writing) [
      | inl e2 ↦ absurd (ground arith)
      | inr (rest, e2) ↦
          some-IsTaken s s' max rest d (subst (IsPending stream s.write_offset) e2 p) (ground arith)
    ]
  ]
