-- ===== src/Session/Packer/Fits.antt =====
-- quic-go/packet_packer.go: a composed packet is not too long, by the lengths of MinLength.
use mathlib.Core.Option
use mpquic_sbd.Base.{
  ℕ, ◌+◌, ◌-◌, ◌≤◌, ◌≡◌, ◌⊎◌, refl, subst, inl, inr, Bool, true, false, not, ◌&&◌, List, [], ◌∷◌,
  ◌++◌, Option, none, some, Result, ok, err, ltb, ◌==◌, length, map, All, Bool-cases, arith,
}
use mpquic_sbd.Wire.Stream.{
  StreamFrame, stream_min_length, calculate_stream_id_length, get_offset_length,
}
use mpquic_sbd.Flow.Controller.{ConnectionParameters}
use mpquic_sbd.Flow.Manager.{Manager}
use mpquic_sbd.Streams.Open.{StreamsMap}
use mpquic_sbd.Streams.Stream.{Stream}
use mpquic_sbd.Streams.Framer.{Framer, pointers}
use mpquic_sbd.Streams.Framer.Normal.{Popped, pop_stream_frames}
use mpquic_sbd.Streams.Framer.Retransmission.{total_len}
use mpquic_sbd.Streams.Framer.Sent.{AreReady, IsOwn, IsFilled, pop_stream_frames-IsFilled}
use mpquic_sbd.Session.Frames.{ControlFrame, stop_waiting_frame, ack_frame, min_length}
use mpquic_sbd.Session.Packer.{
  PackedPath, Packer, PayloadFrame, control, stream, Payload, Composed, finish_packet, add_frame,
  add_control_frames, omit_last_data_len, stamp, add_stream_frames, compose_next_packet,
}

-- Leaving out the last length field saves its two bytes.
omit_last-total_len :
    (l : List StreamFrame) (n : ℕ)
    → All (λ (f : StreamFrame). f.data_len_present ≡ true) l
    → total_len l ≤ n + 2
    → total_len (omit_last_data_len l) ≤ n
unfolding omit_last_data_len stream_min_length calculate_stream_id_length get_offset_length
omit_last-total_len [] n a h = omega arith
omit_last-total_len (f ∷ []) n a h = ground (arith, a.0)
omit_last-total_len (f ∷ g ∷ rest) n a h =
    let later = omit_last-total_len (g ∷ rest) (n - (stream_min_length f + length f.content)) a.1 in
    let small : stream_min_length f + length f.content ≤ n = omega (arith, h) in
    omega (arith, small, later (omega (arith, h, small)))

stamp-total_len :
    (now lost : ℕ) (only_one : Bool) (pth : PackedPath) (l : List StreamFrame)
    → total_len (stamp now lost only_one pth l).0 ≡ total_len l
unfolding stamp stream_min_length calculate_stream_id_length get_offset_length
stamp-total_len now lost only_one pth [] = refl
stamp-total_len now lost only_one pth (f ∷ rest) =
    elim (Bool-cases (f.loss_count == 0 && not only_one)) [
      | inl t ↦ rw (stamp, t) (omega (arith, stamp-total_len now lost true _ rest))
      | inr t ↦ rw (stamp, t) (omega (arith, stamp-total_len now lost only_one pth rest))
    ]

module _ (outgoing : ℕ → ℕ → ℕ) where
  stamp-IsOwn :
      (now lost : ℕ) (only_one : Bool) (pth : PackedPath) (l : List StreamFrame)
      → All (IsOwn outgoing) l
      → All (IsOwn outgoing) (stamp now lost only_one pth l).0
  unfolding stamp
  stamp-IsOwn now lost only_one pth [] a = tt
  stamp-IsOwn now lost only_one pth (f ∷ rest) a =
      elim (Bool-cases (f.loss_count == 0 && not only_one)) [
        | inl t ↦
            rw (stamp, t)
              (
                record { bytes = a.0.bytes; bounded = a.0.bounded },
                stamp-IsOwn now lost true _ rest a.1,
              )
        | inr t ↦
            rw (stamp, t)
              (
                record { bytes = a.0.bytes; bounded = a.0.bounded },
                stamp-IsOwn now lost only_one pth rest a.1,
              )
      ]

  omit_last-IsOwn :
      (l : List StreamFrame) → All (IsOwn outgoing) l → All (IsOwn outgoing) (omit_last_data_len l)
  unfolding omit_last_data_len
  omit_last-IsOwn [] a = tt
  omit_last-IsOwn (f ∷ []) a = (record { bytes = a.0.bytes; bounded = a.0.bounded }, tt)
  omit_last-IsOwn (f ∷ g ∷ rest) a = (a.0, omit_last-IsOwn (g ∷ rest) a.1)

  abbrev pub frame_len : PayloadFrame → ℕ
  frame_len (control f) = elim (min_length f) as (λ _. ℕ) [ err e ↦ 0 | ok n ↦ n ]
  frame_len (stream f) = stream_min_length f + length f.content

  -- The sum of what MinLength returns for the frames, with the data for STREAM frames.
  abbrev pub payload_len : List PayloadFrame → ℕ
  payload_len [] = 0
  payload_len (f ∷ rest) = frame_len f + payload_len rest

  abbrev pub IsSound : PayloadFrame → Type 0
  IsSound (control f) = Unit
  IsSound (stream f) = IsOwn outgoing f

  payload_len-append :
      (l r : List PayloadFrame) → payload_len (l ++ r) ≡ payload_len l + payload_len r
  payload_len-append [] r = omega arith
  payload_len-append (f ∷ l) r = omega (arith, payload_len-append l r)

  payload_len-stream : (l : List StreamFrame) → payload_len (map (λ f. stream f) l) ≡ total_len l
  payload_len-stream [] = refl
  payload_len-stream (f ∷ l) = omega (arith, payload_len-stream l)

  IsSound-streams :
      (p : List PayloadFrame) (l : List StreamFrame)
      → All IsSound p
      → All (IsOwn outgoing) l
      → All IsSound (p ++ map (λ f. stream f) l)
  IsSound-streams [] [] a b = tt
  IsSound-streams [] (f ∷ l) a b = (b.0, IsSound-streams [] l tt b.1)
  IsSound-streams (f ∷ p) l a b = (a.0, IsSound-streams p l a.1 b)

  IsSound-control :
      (p : List PayloadFrame) (f : ControlFrame)
      → All IsSound p
      → All IsSound (p ++ (control f ∷ []))
  IsSound-control [] f a = (tt, tt)
  IsSound-control (g ∷ p) f a = (a.0, IsSound-control p f a.1)

  -- The length is counted.
  record IsCounted (p : Payload) : Type 0 where
    len : p.len ≡ payload_len p.frames
    sound : All IsSound p.frames

  result_cases : {A B : Type 0} (r : Result A B) → ((e : A) × (r ≡ err e)) ⊎ ((b : B) × (r ≡ ok b))
  result_cases (err e) = inl (e, refl)
  result_cases (ok b) = inr (b, refl)

  one_more :
      (f : ControlFrame) (n : ℕ) (p : Payload)
      → min_length f ≡ ok n
      → IsCounted p
      → IsCounted record { frames = p.frames ++ (control f ∷ []); len = p.len + n }
  one_more f n p e c = record {
    len = ground (arith, c.len, payload_len-append p.frames (control f ∷ []));
    sound = IsSound-control p.frames f c.sound;
  }

  add_frame-IsCounted :
      (o : Option ControlFrame) (p q : Payload) → IsCounted p → add_frame o p ≡ ok q → IsCounted q
  unfolding add_frame
  add_frame-IsCounted none p q c e = let same : p ≡ q = ground arith in subst IsCounted same c
  add_frame-IsCounted (some f) p q c e = elim (result_cases (min_length f)) [
    | inl (x, g) ↦ absurd (ground arith)
    | inr (n, g) ↦
        let grown : Payload = record { frames = p.frames ++ (control f ∷ []); len = p.len + n } in
        let same : grown ≡ q = ground arith in subst IsCounted same (one_more f n p g c)
  ]

  add_control_frames-IsCounted :
      (max_size : ℕ) (l left : List ControlFrame) (p q : Payload)
      → IsCounted p
      → add_control_frames max_size l p ≡ ok (q, left)
      → IsCounted q
  unfolding add_control_frames
  add_control_frames-IsCounted max_size [] left p q c e =
      let same : p ≡ q = ground arith in subst IsCounted same c
  add_control_frames-IsCounted max_size (f ∷ rest) left p q c e =
      elim (result_cases (min_length f)) [
        | inl (x, g) ↦ absurd (ground arith)
        | inr (n, g) ↦ elim (Bool-cases (ltb max_size (p.len + n))) [
          | inl u ↦ let same : p ≡ q = ground arith in subst IsCounted same c
          | inr u ↦
              add_control_frames-IsCounted max_size rest left
                record { frames = p.frames ++ (control f ∷ []); len = p.len + n } q
                (one_more f n p g c) (ground arith)
        ]
      ]

  -- Their lengths are together no more than allowed, and the STREAM frames hold bytes of their streams.
  pub record IsComposed (params : ConnectionParameters) (max_size : ℕ) (c : Composed params)
      : Type 0 where
    pub fits : payload_len c.frames ≤ max_size
    pub sound : All IsSound c.frames

  add_stream_frames-IsComposed :
      (params : ConnectionParameters) (max_size now lost : ℕ) (pth : PackedPath) (packer : Packer)
      (p : Payload) (fs : Popped params)
      → IsCounted p
      → p.len ≤ max_size
      → IsFilled outgoing params (max_size + 2 - p.len) fs
      → IsComposed params max_size (add_stream_frames params now lost pth packer p fs)
  unfolding add_stream_frames
  add_stream_frames-IsComposed params max_size now lost pth packer p fs c h k =
      let last = omit_last_data_len fs.frames in
      let stamped = (stamp now lost false pth last).0 in
      let less =
        omit_last-total_len fs.frames (max_size - p.len) k.flagged (omega (arith, k.fits, h)) in
      record {
        fits = omega (
          arith,
          less,
          h,
          c.len,
          payload_len-append p.frames (map (λ f. stream f) stamped),
          payload_len-stream stamped,
          stamp-total_len now lost false pth last,
        );
        sound =
            IsSound-streams p.frames stamped c.sound
              (stamp-IsOwn now lost false pth last (omit_last-IsOwn fs.frames k.parts));
      }

  -- From the payload on.
  sent_or_not :
      (params : ConnectionParameters) (max_size now lost : ℕ) (can_send : Bool) (pth : PackedPath)
      (packer : Packer) (framer : Framer) (m : StreamsMap pointers) (flow : Manager)
      (streams : ℕ → Option Stream) (c : Composed params) (p : Payload) (left : List ControlFrame)
      → AreReady outgoing streams
      → All (IsOwn outgoing) framer.retransmission_queue
      → IsCounted p
      → finish_packet params max_size can_send now lost pth packer framer m flow streams p left
        ≡ ok c
      → IsComposed params max_size c
  sent_or_not params max_size now lost can_send pth packer framer m flow streams c p left a o k e =
      elim (Bool-cases (ltb max_size p.len)) [
        | inl u ↦ absurd (ground arith)
        | inr u ↦
            let short : p.len ≤ max_size = ground arith in
            elim (Bool-cases can_send) [
              | inr v ↦
                  let same : p.frames ≡ c.frames = ground arith in
                  record {
                    fits =
                        subst (λ fs. payload_len fs ≤ max_size) same (omega (arith, short, k.len));
                    sound = subst (All IsSound) same k.sound;
                  }
              | inl v ↦
                  let fs = pop_stream_frames params framer m flow streams (max_size + 2 - p.len) in
                  let same : add_stream_frames params now lost pth
                        (record packer { control_frames = left }) p fs
                      ≡ c =
                    ground arith in
                  subst (IsComposed params max_size) same (
                    add_stream_frames-IsComposed params max_size now lost pth
                      (record packer { control_frames = left }) p fs k short
                      (pop_stream_frames-IsFilled outgoing params framer m flow streams
                        (max_size + 2 - p.len) a o))
            ]
      ]

  -- Where each stream has the next bytes of it to send, and the frames that wait to be sent again hold
  -- bytes of their streams, the lengths of the frames of a packet that composeNextPacket returns are
  -- together at most as long as allowed. The length of a frame is what its MinLength returns, with its
  -- data for a STREAM frame, the last one without its length field. The STREAM frames hold bytes of
  -- their streams.
  pub compose_next_packet-IsComposed :
      (params : ConnectionParameters) (max_size now lost : ℕ) (can_send : Bool) (pth : PackedPath)
      (packer : Packer) (framer : Framer) (m : StreamsMap pointers) (flow : Manager)
      (streams : ℕ → Option Stream) (c : Composed params)
      → AreReady outgoing streams
      → All (IsOwn outgoing) framer.retransmission_queue
      → compose_next_packet params max_size can_send now lost pth packer framer m flow streams
        ≡ ok c
      → IsComposed params max_size c
  unfolding compose_next_packet
  compose_next_packet-IsComposed params max_size now lost can_send pth packer framer m flow streams
        c a o e =
      elim (result_cases (
        add_frame (Option.map stop_waiting_frame (packer.stop_waiting pth.path_id))
          record { frames = []; len = 0 })) [
            | inl (x, e1) ↦ absurd (ground arith)
            | inr (stopped, e1) ↦
                let c1 = add_frame-IsCounted _ _ stopped record { len = refl; sound = tt } e1 in
                elim (result_cases
                  (add_frame (Option.map ack_frame (packer.ack_frame pth.path_id)) stopped)) [
                    | inl (x, e2) ↦ absurd (ground arith)
                    | inr (acked, e2) ↦
                        let c2 = add_frame-IsCounted _ stopped acked c1 e2 in
                        elim (result_cases
                          (add_control_frames max_size packer.control_frames acked)) [
                            | inl (x, e3) ↦ absurd (ground arith)
                            | inr (added, e3) ↦
                                sent_or_not params max_size now lost can_send pth packer framer m
                                  flow streams c added.0 added.1 a o
                                  (add_control_frames-IsCounted max_size packer.control_frames
                                    added.1 acked added.0 c2 e3)
                                  (ground arith)
                          ]
                  ]
          ]
