-- ===== src/Streams/Framer/Sent.antt =====
-- The frames of PopStreamFrames: they hold bytes of their streams, and they fit into the packet.
use mpquic_sbd.Base.{
  ℕ, ◌+◌, ◌-◌, ◌≤◌, ◌≡◌, refl, sym, ◌∙◌, ap, subst, inl, inr, Bool, true, false, not, ◌&&◌, List,
  [], ◌∷◌, ◌++◌, Option, some, ltb, leb, ◌==◌, length, take, drop, All, if◌then◌else◌, Bool-cases,
  Option-cases, arith,
}
use mpquic_sbd.Protocol.{add_u64}
use mpquic_sbd.Wire.Stream.{
  StreamFrame, stream_min_length, calculate_stream_id_length, get_offset_length,
}
use mpquic_sbd.Flow.Controller.{ConnectionParameters, min_byte_count}
use mpquic_sbd.Flow.Manager.{Manager, manager_send_window_size}
use mpquic_sbd.Streams.Open.{StreamsMap}
use mpquic_sbd.Streams.Open.Iteration.{round_robin_iterate}
use mpquic_sbd.Streams.Open.Visited.{round_robin_iterate-keeps}
use mpquic_sbd.Streams.Sorter.{skip_bytes}
use mpquic_sbd.Streams.Sorter.Delivery.{segment, IsPart, keep_bytes-IsPart, skip_bytes-IsPart}
use mpquic_sbd.Streams.Stream.{Stream}
use mpquic_sbd.Streams.Stream.Taken.{IsPending}
use mpquic_sbd.Streams.Stream.Methods.{is_none, len_of_data_for_writing, should_send_fin, sent_fin}
use mpquic_sbd.Streams.Framer.{
  Framer, Sending, Retransmitted, empty_frame, content_of, with_stream, pointers,
  maybe_pop_frames_for_retransmission, maybe_split_off_frame, with_data_len, counted,
  pop_retransmissions,
}
use mpquic_sbd.Streams.Framer.Normal.{
  window_or_zero, taken_of, pop_taken, pop_frame_of, pop_normal_frame, maybe_pop_normal_frames,
  Popped, pop_stream_frames,
}
use mpquic_sbd.Streams.Framer.Given.{IsGiven, taken_of-IsGiven}
use mpquic_sbd.Streams.Framer.Retransmission.{
  total_len, IsBounded, maybe_pop_frames_for_retransmission-IsPopped,
}

total_len-append :
    (l : List StreamFrame) (f : StreamFrame)
    → total_len (l ++ (f ∷ [])) ≡ total_len l + (stream_min_length f + length f.content)
total_len-append [] f = omega arith
total_len-append (x ∷ l) f = omega (arith, total_len-append l f)

total_len-joined : (l r : List StreamFrame) → total_len (l ++ r) ≡ total_len l + total_len r
total_len-joined [] r = omega arith
total_len-joined (x ∷ l) r = omega (arith, total_len-joined l r)

All-append : {A : Type 0} (P : A → Type 0) (l r : List A) → All P l → All P r → All P (l ++ r)
All-append P [] r a b = b
All-append P (x ∷ l) r a b = (a.0, All-append P l r a.1 b)

-- The bytes of the streams: each pointer's stream holds the next ones.
module _ (outgoing : ℕ → ℕ → ℕ) where
  pub record IsReady (id : ℕ) (s : Stream) : Type 0 where
    pub stream_id : s.stream_id ≡ id
    pub pending : IsPending (outgoing id) s.write_offset s.data_for_writing

  abbrev pub AreReady : (ℕ → Option Stream) → Type 0
  AreReady streams = (id : ℕ) (s : Stream) → streams id ≡ some s → IsReady id s

  abbrev pub IsOwn : StreamFrame → Type 0
  IsOwn f = IsPart (outgoing f.stream_id) f

  abbrev pub HasDataLen : StreamFrame → Type 0
  HasDataLen f = f.data_len_present ≡ true

  pub record IsSending (max_bytes : ℕ) (w : Sending) : Type 0 where
    pub ready : AreReady w.streams
    pub parts : All IsOwn w.frames
    pub flagged : All HasDataLen w.frames
    pub size : w.current_len ≡ total_len w.frames
    pub fits : w.current_len ≤ max_bytes

  with_stream-AreReady :
      (id : ℕ) (s : Stream) (streams : ℕ → Option Stream)
      → IsReady id s
      → AreReady streams
      → AreReady (with_stream id s streams)
  with_stream-AreReady id s streams r a other s' e = elim (Bool-cases (other == id)) [
    | inl t ↦
        let same : id ≡ other = ground arith in
        let found : s ≡ s' = ground arith in
        subst (λ i. IsReady i s') same (subst (IsReady id) found r)
    | inr t ↦ a other s' (ground arith)
  ]

  fin-IsReady :
      (b : Bool) (id : ℕ) (s : Stream) → IsReady id s → IsReady id (if b then sent_fin s else s)
  unfolding sent_fin
  fin-IsReady true id s r = record { stream_id = r.stream_id; pending = r.pending }
  fin-IsReady false id s r = r

  abbrev frame_of : Stream → StreamFrame
  frame_of s = empty_frame true s.stream_id s.write_offset

  given-IsReady :
      (id max_len : ℕ) (s : Stream) (taken : Option (List ℕ) × Stream)
      → IsReady id s
      → IsGiven (outgoing id) max_len s taken
      → IsReady id taken.1
  given-IsReady id max_len s taken r g = record {
    stream_id = g.stream_id ∙ r.stream_id;
    pending = g.pending;
  }

  given-IsOwn :
      (id max_len : ℕ) (s : Stream) (taken : Option (List ℕ) × Stream) (fin : Bool)
      → IsReady id s
      → IsGiven (outgoing id) max_len s taken
      → IsOwn (record (frame_of s) { fin_bit = fin; content = content_of taken.0 })
  given-IsOwn id max_len s taken fin r g = record {
    bytes =
        g.bytes
        ∙ ap (λ i. segment (outgoing i) s.write_offset (length (content_of taken.0)))
            (sym r.stream_id);
    bounded = g.bounded;
  }

  pop_taken-IsSending :
      (params : ConnectionParameters) (max_bytes id window max_len : ℕ) (s : Stream)
      (taken : Option (List ℕ) × Stream) (w : Sending)
      → IsReady id s
      → IsGiven (outgoing id) max_len s taken
      → w.current_len + stream_min_length (frame_of s) + max_len ≤ max_bytes
      → IsSending max_bytes w
      → IsSending max_bytes
          (pop_taken params max_bytes
            (stream_min_length (frame_of s))
            id
            (frame_of s)
            window
            taken
            w).1
  unfolding pop_taken stream_min_length calculate_stream_id_length get_offset_length
  pop_taken-IsSending params max_bytes id window max_len s taken w r g h k =
      let fin : Bool = should_send_fin taken.1 in
      let f : StreamFrame = record (frame_of s) { fin_bit = fin; content = content_of taken.0 } in
      let after : IsReady id taken.1 = given-IsReady id max_len s taken r g in
      elim (Bool-cases (is_none taken.0 && not fin)) [
        | inl t ↦
            rw (pop_taken, t)
              record {
                ready = with_stream-AreReady id taken.1 w.streams after k.ready;
                parts = k.parts;
                flagged = k.flagged;
                size = k.size;
                fits = k.fits;
              }
        | inr t ↦
            rw (pop_taken, t)
              record {
                ready =
                    with_stream-AreReady id _ w.streams (fin-IsReady fin id taken.1 after) k.ready;
                parts =
                    All-append IsOwn w.frames (f ∷ []) k.parts
                      (given-IsOwn id max_len s taken fin r g, tt);
                flagged = All-append HasDataLen w.frames (f ∷ []) k.flagged (refl, tt);
                size = omega (arith, k.size, total_len-append w.frames f);
                fits = omega (arith, h, g.few);
              }
      ]

  bounded_by_window :
      (has_data : Bool) (space window : ℕ)
      → (if has_data then min_byte_count space window else space) ≤ space
  bounded_by_window has_data space window = ground arith

  pop_frame_of-IsSending :
      (params : ConnectionParameters) (max_bytes id : ℕ) (s : Stream) (w : Sending)
      → IsReady id s
      → IsSending max_bytes w
      → IsSending max_bytes (pop_frame_of params max_bytes id s w).1
  unfolding pop_frame_of
  pop_frame_of-IsSending params max_bytes id s w r k =
      let header : ℕ = stream_min_length (frame_of s) in
      let space : ℕ = max_bytes - (w.current_len + header) in
      let has_data : Bool = not (len_of_data_for_writing s == 0) in
      let window : ℕ =
        if has_data
        then window_or_zero (manager_send_window_size params w.flow s.stream_id)
        else 0 in
      let max_len : ℕ = if has_data then min_byte_count space window else space in
      elim (Bool-cases (ltb max_bytes (w.current_len + header))) [
        | inl t ↦ rw (pop_frame_of, t) k
        | inr t ↦ elim (Bool-cases (max_len == 0)) [
          | inl u ↦ rw (pop_frame_of, t, u) k
          | inr u ↦
              let room : w.current_len + header ≤ max_bytes = ground arith in
              let less : max_len ≤ space = bounded_by_window has_data space window in
              rw (pop_frame_of, t, u)
                (pop_taken-IsSending params max_bytes id window max_len s
                  (taken_of params s max_len) w r
                  (taken_of-IsGiven (outgoing id) max_len s r.pending params)
                  (omega (arith, room, less)) k)
        ]
      ]

  pop_normal_frame-IsSending :
      (params : ConnectionParameters) (max_bytes id : ℕ) (w : Sending)
      → IsSending max_bytes w
      → IsSending max_bytes (pop_normal_frame params max_bytes id w).1
  unfolding pop_normal_frame
  pop_normal_frame-IsSending params max_bytes id w k = elim (Option-cases (w.streams id)) [
    | inl e ↦ rw (pop_normal_frame, e) k
    | inr (s, e) ↦ elim (Bool-cases (s.stream_id == 1)) [
      | inl t ↦ rw (pop_normal_frame, e, t) k
      | inr t ↦
          rw (pop_normal_frame, e, t)
            (pop_frame_of-IsSending params max_bytes id s w (k.ready id s e) k)
    ]
  ]

  record AreOwn (r : Retransmitted) : Type 0 where
    frames : All IsOwn r.frames
    flagged : All HasDataLen r.frames
    queue : All IsOwn r.queue

  split-IsOwn :
      (f : StreamFrame) (n : ℕ) (split : StreamFrame × StreamFrame)
      → IsOwn f
      → maybe_split_off_frame f n ≡ some split
      → IsOwn split.0 × IsOwn split.1
  unfolding maybe_split_off_frame skip_bytes
  split-IsOwn f n split o e = elim (Bool-cases (leb (length f.content) n)) [
    | inl t ↦ absurd (ground arith)
    | inr t ↦
        let first : StreamFrame = record f {
          fin_bit = false;
          content = take n f.content;
          loss_count = 0;
        } in
        let left : StreamFrame = record f {
          content = drop n f.content;
          offset = add_u64 f.offset n;
        } in
        let same : (first, left) ≡ split = ground arith in
        let kept = keep_bytes-IsPart (outgoing f.stream_id) n f o in
        let skipped = skip_bytes-IsPart (outgoing f.stream_id) n f o (ground arith) in
        subst (λ (p : StreamFrame × StreamFrame). IsOwn p.0 × IsOwn p.1) same
          (
            record { bytes = kept.bytes; bounded = kept.bounded },
            record { bytes = skipped.bytes; bounded = skipped.bounded },
          )
  ]

  split_flagged :
      (f : StreamFrame) (n : ℕ) (split : StreamFrame × StreamFrame)
      → maybe_split_off_frame f n ≡ some split
      → split.0.data_len_present ≡ f.data_len_present
  unfolding maybe_split_off_frame
  split_flagged f n split e = elim (Bool-cases (leb (length f.content) n)) [
    | inl t ↦ absurd (ground arith)
    | inr t ↦ ground arith
  ]

  pop_retransmissions-AreOwn :
      (max_len current_len : ℕ) (queue : List StreamFrame) (flow : Manager)
      → All IsOwn queue
      → AreOwn (pop_retransmissions max_len current_len queue flow)
  unfolding pop_retransmissions
  pop_retransmissions-AreOwn max_len current_len [] flow o = record {
    frames = tt;
    flagged = tt;
    queue = tt;
  }
  pop_retransmissions-AreOwn max_len current_len (queued ∷ rest) flow o =
      let f : StreamFrame = with_data_len queued in
      let start : ℕ = current_len + stream_min_length f in
      let own : IsOwn f = record { bytes = o.0.bytes; bounded = o.0.bounded } in
      elim (Bool-cases (leb max_len start)) [
        | inl t ↦ rw t record { frames = tt; flagged = tt; queue = (own, o.1) }
        | inr t ↦ elim (Option-cases (maybe_split_off_frame f (max_len - start))) [
          | inr (split, e) ↦
              let (first, left) = split-IsOwn f (max_len - start) split own e in
              rw (t, e)
                record {
                  frames = (first, tt);
                  flagged = (split_flagged f (max_len - start) split e, tt);
                  queue = (left, o.1);
                }
          | inl e ↦
              let p =
                pop_retransmissions-AreOwn max_len (start + length f.content) rest (counted flow f)
                  o.1 in
              rw (t, e)
                record { frames = (own, p.frames); flagged = (refl, p.flagged); queue = p.queue }
        ]
      ]

  own-IsBounded : (l : List StreamFrame) → All IsOwn l → All IsBounded l
  own-IsBounded [] o = tt
  own-IsBounded (f ∷ rest) o = (o.0.bounded, own-IsBounded rest o.1)

  -- What PopStreamFrames returns, with what it leaves.
  pub record IsFilled (params : ConnectionParameters) (max_len : ℕ) (p : Popped params)
      : Type 0 where
    pub ready : AreReady p.streams
    pub parts : All IsOwn p.frames
    pub flagged : All HasDataLen p.frames
    pub queued : All IsOwn p.framer.retransmission_queue
    pub fits : total_len p.frames ≤ max_len

  -- Where each pointer's stream has the next bytes of it to send, and the frames that wait to be sent again
  -- hold bytes of their streams, PopStreamFrames returns frames that hold bytes of their streams, have
  -- a length field and together, with their headers, are at most as long as allowed; what it leaves is so again.
  pub pop_stream_frames-IsFilled :
      (params : ConnectionParameters) (r : Framer) (m : StreamsMap pointers) (flow : Manager)
      (streams : ℕ → Option Stream) (max_len : ℕ)
      → AreReady streams
      → All IsOwn r.retransmission_queue
      → IsFilled params max_len (pop_stream_frames params r m flow streams max_len)
  unfolding pop_stream_frames maybe_pop_normal_frames maybe_pop_frames_for_retransmission
  pop_stream_frames-IsFilled params r m flow streams max_len a o =
      let again = maybe_pop_frames_for_retransmission r flow max_len in
      let p =
        maybe_pop_frames_for_retransmission-IsPopped r flow max_len
          (own-IsBounded r.retransmission_queue o) in
      let own = pop_retransmissions-AreOwn max_len 0 r.retransmission_queue flow o in
      let max_bytes : ℕ = max_len - again.current_len in
      let start : Sending = record {
        streams = streams;
        flow = again.flow;
        current_len = 0;
        frames = [];
        blocked = [];
      } in
      let w = (round_robin_iterate pointers (pop_normal_frame params max_bytes) m start).world in
      let k =
        round_robin_iterate-keeps pointers (pop_normal_frame params max_bytes) (IsSending max_bytes)
          (pop_normal_frame-IsSending params max_bytes) m start
          record { ready = a; parts = tt; flagged = tt; size = refl; fits = omega arith } in
      record {
        ready = k.ready;
        parts = All-append IsOwn again.frames w.frames own.frames k.parts;
        flagged = All-append HasDataLen again.frames w.frames own.flagged k.flagged;
        queued = own.queue;
        fits =
            omega (arith, p.fits, p.size, k.fits, k.size, total_len-joined again.frames w.frames);
      }
