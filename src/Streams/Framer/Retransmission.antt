-- ===== src/Streams/Framer/Retransmission.antt =====
-- The frames that are sent again: nothing of them is lost or changed, and they fit into the packet.
use mathlib.Core.List.{append_assoc}
use mpquic_sbd.Base.{
  ℕ, zero, suc, ◌+◌, ◌-◌, ◌^◌, ◌≤◌, ◌<◌, ◌≡◌, ◌⊎◌, refl, sym, ◌∙◌, ap, subst, inl, inr, false, List,
  [], ◌∷◌, ◌++◌, none, some, leb, length, take, drop, All, if◌then◌else◌, Bool-cases, Option-cases,
  arith, length-take, length-drop,
}
use mpquic_sbd.Protocol.{add_u64}
use mpquic_sbd.Wire.Stream.{
  StreamFrame, stream_min_length, calculate_stream_id_length, get_offset_length,
}
use mpquic_sbd.Flow.Manager.{Manager}
use mpquic_sbd.Streams.Framer.{
  Framer, Retransmitted, maybe_split_off_frame, with_data_len, counted, pop_retransmissions,
  maybe_pop_frames_for_retransmission,
}

-- The bytes with the stream and the offset of each.
abbrev pub numbered : ℕ → ℕ → List ℕ → List (ℕ × ℕ × ℕ)
numbered id offset [] = []
numbered id offset (b ∷ rest) = (id, offset, b) ∷ numbered id (offset + 1) rest

abbrev pub bytes_of : List StreamFrame → List (ℕ × ℕ × ℕ)
bytes_of [] = []
bytes_of (f ∷ rest) = numbered f.stream_id f.offset f.content ++ bytes_of rest

-- The streams that the frames end, and where.
abbrev pub end_of : StreamFrame → List (ℕ × ℕ)
end_of f = if f.fin_bit then (f.stream_id, f.offset + length f.content) ∷ [] else []

abbrev pub ends_of : List StreamFrame → List (ℕ × ℕ)
ends_of [] = []
ends_of (f ∷ rest) = end_of f ++ ends_of rest

-- What the frames take of a packet.
abbrev pub total_len : List StreamFrame → ℕ
total_len [] = 0
total_len (f ∷ rest) = stream_min_length f + length f.content + total_len rest

abbrev pub IsBounded : StreamFrame → Type 0
IsBounded f = f.offset + length f.content < 2 ^ 64

abbrev pub max_header : ℕ
max_header = 25

pub record IsPopped (max_len current_len : ℕ) (queue : List StreamFrame) (r : Retransmitted)
    : Type 0 where
  pub bytes : bytes_of (r.frames ++ r.queue) ≡ bytes_of queue
  pub ends : ends_of (r.frames ++ r.queue) ≡ ends_of queue
  pub size : r.current_len ≡ current_len + total_len r.frames
  pub fits : r.current_len ≤ max_len
  pub full : (r.queue ≡ []) ⊎ (max_len ≤ r.current_len + max_header)

pub stream_min_length-bounded : (f : StreamFrame) → stream_min_length f ≤ max_header
unfolding stream_min_length calculate_stream_id_length get_offset_length
stream_min_length-bounded f = ground arith

numbered-split :
    (id offset n : ℕ) (l : List ℕ)
    → numbered id offset (take n l) ++ numbered id (offset + n) (drop n l) ≡ numbered id offset l
numbered-split id offset zero l = ap (λ o. numbered id o l) (omega arith)
numbered-split id offset (suc n) [] = refl
numbered-split id offset (suc n) (b ∷ rest) =
    ap (λ l. (id, offset, b) ∷ l)
      (ap (λ o. numbered id (offset + 1) (take n rest) ++ numbered id o (drop n rest)) (omega arith)
        ∙ numbered-split id (offset + 1) n rest)

-- Both parts of a frame that is split.
record IsSplit (f : StreamFrame) (n : ℕ) (split : StreamFrame × StreamFrame) : Type 0 where
  bytes :
      numbered split.0.stream_id split.0.offset split.0.content
        ++ numbered split.1.stream_id split.1.offset split.1.content
      ≡ numbered f.stream_id f.offset f.content
  ended : end_of split.0 ≡ []
  ends : end_of split.1 ≡ end_of f
  header : stream_min_length split.0 ≡ stream_min_length f
  size : length split.0.content ≡ n

maybe_split_off_frame-IsSplit :
    (f : StreamFrame) (n : ℕ) (split : StreamFrame × StreamFrame)
    → IsBounded f
    → maybe_split_off_frame f n ≡ some split
    → IsSplit f n split
unfolding maybe_split_off_frame stream_min_length calculate_stream_id_length get_offset_length
maybe_split_off_frame-IsSplit f n split b e = elim (Bool-cases (leb (length f.content) n)) [
  | inl t ↦ absurd (ground arith)
  | inr t ↦
      let short : n < length f.content = ground arith in
      let left : StreamFrame = record f {
        content = drop n f.content;
        offset = add_u64 f.offset n;
      } in
      let first : StreamFrame = record f {
        fin_bit = false;
        content = take n f.content;
        loss_count = 0;
      } in
      let at_end : add_u64 f.offset n ≡ f.offset + n = omega (arith, b) in
      let same : (first, left) ≡ split = ground arith in
      subst (IsSplit f n) same record {
        bytes =
            ap
              (λ o.
                numbered f.stream_id f.offset (take n f.content)
                ++ numbered f.stream_id o (drop n f.content))
              at_end
            ∙ numbered-split f.stream_id f.offset n f.content;
        ended = refl;
        ends =
            ap (λ (o : ℕ). if f.fin_bit then (f.stream_id, o) ∷ [] else [])
              (omega (arith, at_end, length-drop n f.content));
        header = refl;
        size = omega (arith, length-take n f.content);
      }
]

-- A frame that is not split is no longer than the space that it has.
pub none_split : (f : StreamFrame) (n : ℕ) → maybe_split_off_frame f n ≡ none → length f.content ≤ n
unfolding maybe_split_off_frame
none_split f n e = elim (Bool-cases (leb (length f.content) n)) [
  | inl t ↦ ground arith
  | inr t ↦ absurd (ground arith)
]

split-IsPopped :
    (max_len current_len : ℕ) (queued : StreamFrame) (rest : List StreamFrame) (flow : Manager)
    (split : StreamFrame × StreamFrame)
    → IsSplit
        (with_data_len queued)
        (max_len - (current_len + stream_min_length (with_data_len queued)))
        split
    → current_len + stream_min_length (with_data_len queued) < max_len
    → IsPopped max_len current_len (queued ∷ rest) record {
      frames = split.0 ∷ [];
      queue = split.1 ∷ rest;
      flow = flow;
      current_len = current_len + stream_min_length (with_data_len queued) + length split.0.content;
    }
split-IsPopped max_len current_len queued rest flow split s h = record {
  bytes =
      sym (append_assoc (numbered split.0.stream_id split.0.offset split.0.content) _ _)
      ∙ ap (λ l. l ++ bytes_of rest) s.bytes;
  ends =
      ap (λ l. l ++ (end_of split.1 ++ ends_of rest)) s.ended ∙ ap (λ l. l ++ ends_of rest) s.ends;
  size = omega (arith, s.header, s.size);
  fits = omega (arith, h, s.size);
  full = inr (omega (arith, h, s.size));
}

pub pop_retransmissions-IsPopped :
    (max_len current_len : ℕ) (queue : List StreamFrame) (flow : Manager)
    → All IsBounded queue
    → current_len ≤ max_len
    → IsPopped max_len current_len queue (pop_retransmissions max_len current_len queue flow)
unfolding pop_retransmissions
pop_retransmissions-IsPopped max_len current_len [] flow b h = record {
  bytes = refl;
  ends = refl;
  size = omega arith;
  fits = h;
  full = inl refl;
}
pop_retransmissions-IsPopped max_len current_len (queued ∷ rest) flow b h =
    let f : StreamFrame = with_data_len queued in
    let start : ℕ = current_len + stream_min_length f in
    elim (Bool-cases (leb max_len start)) [
      | inl t ↦
          let late : max_len ≤ start = ground arith in
          rw t record {
            bytes = refl;
            ends = refl;
            size = omega arith;
            fits = h;
            full = inr (omega (arith, stream_min_length-bounded f, late));
          }
      | inr t ↦ elim (Option-cases (maybe_split_off_frame f (max_len - start))) [
        | inr (split, e) ↦
            rw (t, e)
              (split-IsPopped max_len current_len queued rest (counted flow split.0) split
                (maybe_split_off_frame-IsSplit f (max_len - start) split b.0 e) (ground arith))
        | inl e ↦
            let fits : length f.content ≤ max_len - start = none_split f (max_len - start) e in
            let p =
              pop_retransmissions-IsPopped max_len (start + length f.content) rest (counted flow f)
                b.1 (ground arith) in
            rw (t, e)
              record {
                bytes = ap (λ l. numbered f.stream_id f.offset f.content ++ l) p.bytes;
                ends = ap (λ l. end_of f ++ l) p.ends;
                size = omega (arith, p.size);
                fits = p.fits;
                full = p.full;
              }
      ]
    ]

-- Where the frames that wait to be sent again end below 2 ^ 64, maybePopFramesForRetransmission leaves
-- them with all their bytes, in their order: those of the popped frames and then those that are left are
-- the bytes that waited, with their streams and offsets, and so are the ends of streams. The length that it
-- returns is that of the popped frames with their headers, and is at most the length allowed; frames
-- are left only where fewer than 26 bytes of it are.
pub maybe_pop_frames_for_retransmission-IsPopped :
    (r : Framer) (flow : Manager) (max_len : ℕ)
    → All IsBounded r.retransmission_queue
    → IsPopped max_len 0 r.retransmission_queue (maybe_pop_frames_for_retransmission r flow max_len)
unfolding maybe_pop_frames_for_retransmission
maybe_pop_frames_for_retransmission-IsPopped r flow max_len b =
    pop_retransmissions-IsPopped max_len 0 r.retransmission_queue flow b (omega arith)
