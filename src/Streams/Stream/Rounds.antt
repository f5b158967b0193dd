-- ===== src/Streams/Stream/Rounds.antt =====
-- quic-go/stream.go: a round of Read copies the next bytes of the stream.
use mpquic_sbd.Base.{
  ℕ, ◌+◌, ◌-◌, ◌^◌, ◌≤◌, ◌<◌, ◌≡◌, ◌≢◌, refl, sym, ◌∙◌, ap, subst, inl, inr, ◌⊎◌, Bool, true, false,
  ◌||◌, min, List, [], ◌∷◌, Option, none, some, ltb, leb, ◌==◌, length, take, drop, if◌then◌else◌,
  Bool-cases, Option-cases, arith, length-take, length-drop,
}
use mpquic_sbd.Protocol.{add_u64, sub_u64}
use mpquic_sbd.Wire.Stream.{StreamFrame}
use mpquic_sbd.Flow.Manager.{Manager}
use mpquic_sbd.Streams.Sorter
use mpquic_sbd.Streams.Sorter.{Sorter, lookup, delete}
use mpquic_sbd.Streams.Sorter.Queue.{delete-All, lookup-All}
use mpquic_sbd.Streams.Sorter.Delivery.{
  segment, segment-cong, drop-segment, take-segment, IsEntry, IsQueued,
}
use mpquic_sbd.Streams.Stream
use mpquic_sbd.Streams.Stream.{
  Stream, Turn, Ending, leave_frame, read_frame, read_round, read_rounds, read,
}

-- The queue holds bytes of the stream, and Read is in the frame at the read position or behind it.
pub record IsReading (stream : ℕ → ℕ) (s : Stream) : Type 0 where
  pub queue : IsQueued stream s.frame_queue.queued_frames
  pub ordered : s.frame_queue.read_position ≤ s.read_offset
  pub bounded : s.read_offset < 2 ^ 64

abbrev pub queued : Stream → ℕ
queued s = length s.frame_queue.queued_frames

-- A round or a call reads the next bytes of the stream; if it has no ending, less is left to do.
pub record IsTurn (stream : ℕ → ℕ) (s : Stream) (want : ℕ) (t : Turn) : Type 0 where
  pub reading : IsReading stream t.after
  pub bytes : t.bytes ≡ segment stream s.read_offset (length t.bytes)
  pub offset : t.after.read_offset ≡ s.read_offset + length t.bytes
  pub few : length t.bytes ≤ want
  pub less : (t.ending ≢ none) ⊎ (queued t.after + want < queued s + want + length t.bytes)
  pub fuelled : t.ending ≢ some Stream.fuel_spent
  pub written : t.after.write_offset ≡ s.write_offset
  pub pending : t.after.data_for_writing ≡ s.data_for_writing

delete-length : (k : ℕ) (l : List (ℕ × StreamFrame)) → length (delete k l) ≤ length l
unfolding delete
delete-length k [] = omega arith
delete-length k ((key, f) ∷ rest) = ground (arith, delete-length k rest)

lookup-delete-length :
    (k : ℕ) (f : StreamFrame) (l : List (ℕ × StreamFrame))
    → lookup k l ≡ some f
    → length (delete k l) < length l
unfolding delete lookup
lookup-delete-length k f [] e = absurd (ground arith)
lookup-delete-length k f ((key, g) ∷ rest) e = elim (Bool-cases (k == key)) [
  | inl t ↦ ground (arith, delete-length k rest)
  | inr t ↦ ground (arith, lookup-delete-length k f rest (ground arith))
]

either-IsTurn :
    (stream : ℕ → ℕ) (s : Stream) (want : ℕ) (b : Bool) {t u : Turn}
    → IsTurn stream s want t
    → IsTurn stream s want u
    → IsTurn stream s want (if b then t else u)
either-IsTurn stream s want true t u = t
either-IsTurn stream s want false t u = u

-- A call that ends with no byte.
ends-IsTurn :
    (stream : ℕ → ℕ) (s : Stream) (want : ℕ) (flow : Manager) (e : Ending)
    → IsReading stream s
    → e ≢ Stream.fuel_spent
    → IsTurn stream s want (Stream.ends s flow e)
ends-IsTurn stream s want flow e r n = record {
  reading = r;
  bytes = refl;
  offset = omega arith;
  written = refl;
  pending = refl;
  few = omega arith;
  less = inl (λ c. ground (arith, c));
  fuelled = λ c. n (ground (arith, c));
}

module _ (stream : ℕ → ℕ) (s : Stream) (f : StreamFrame) (want : ℕ) (r : IsReading stream s)
    (found : lookup s.frame_queue.read_position s.frame_queue.queued_frames ≡ some f)
    (wants : 0 < want) where
  entry : IsEntry stream (s.frame_queue.read_position, f)
  entry =
      lookup-All (IsEntry stream) s.frame_queue.read_position f s.frame_queue.queued_frames r.queue
        found

  popped : Sorter.pop s.frame_queue ≡ (
    some f,
    record s.frame_queue {
      queued_frames = delete f.offset s.frame_queue.queued_frames;
      read_position = add_u64 s.frame_queue.read_position (length f.content);
    },
  )
  unfolding Sorter.pop Sorter.head
  popped = rw (Sorter.pop, Sorter.head, found) refl

  abbrev pos : ℕ
  pos = s.read_offset - f.offset

  abbrev m : ℕ
  m = min want (length f.content - pos)

  abbrev copied : Stream
  copied = record s { read_pos_in_frame = pos + m; read_offset = add_u64 s.read_offset m }

  offset_bound : f.offset ≤ s.read_offset
  offset_bound = omega (arith, entry.0, r.ordered)

  -- What is copied if `pos` is in the frame.
  copied_length : pos ≤ length f.content → length (take m (drop pos f.content)) ≡ m
  copied_length h = omega (arith, length-take m (drop pos f.content), length-drop pos f.content)

  copied_bytes :
      pos ≤ length f.content → take m (drop pos f.content) ≡ segment stream s.read_offset m
  copied_bytes h =
      ap (λ l. take m (drop pos l)) entry.1.bytes
      ∙ ap (take m) (drop-segment stream f.offset pos (length f.content))
      ∙ take-segment stream (f.offset + pos) m (length f.content - pos)
      ∙ segment-cong stream _ _ _ _ (omega (arith, offset_bound)) (omega arith)

  offset_fits : pos ≤ length f.content → s.read_offset + m < 2 ^ 64
  offset_fits h = omega (arith, entry.0, entry.1.bounded, offset_bound)

  -- The queue after the frame.
  abbrev rest : Sorter
  rest = record s.frame_queue {
    queued_frames = delete f.offset s.frame_queue.queued_frames;
    read_position = add_u64 s.frame_queue.read_position (length f.content);
  }

  popped-IsTurn :
      (flow : Manager) (done : Bool) (e : Option Ending)
      → pos ≤ length f.content
      → length f.content ≤ pos + m
      → e ≢ some Stream.fuel_spent
      → IsTurn stream s want record {
        after = record copied { frame_queue = rest; finished_reading = done };
        flow = flow;
        bytes = take m (drop pos f.content);
        ending = e;
      }
  popped-IsTurn flow done e h k n = record {
    reading = record {
      queue = delete-All (IsEntry stream) f.offset s.frame_queue.queued_frames r.queue;
      ordered = omega (arith, entry.0, entry.1.bounded, offset_bound, offset_fits h);
      bounded = omega arith;
    };
    bytes = copied_bytes h ∙ segment-cong stream _ _ _ _ refl (sym (copied_length h));
    offset = omega (arith, offset_fits h, copied_length h);
    written = refl;
    pending = refl;
    few = omega (arith, copied_length h);
    less = inr (omega (arith, fewer));
    fuelled = n;
  }
    where
      fewer :
          length (delete f.offset s.frame_queue.queued_frames) < length s.frame_queue.queued_frames
      fewer =
          subst
            (λ k.
              length (delete k s.frame_queue.queued_frames) < length s.frame_queue.queued_frames)
            entry.0
            (lookup-delete-length s.frame_queue.read_position f s.frame_queue.queued_frames found)

  leave_frame-IsTurn :
      (flow : Manager)
      → pos ≤ length f.content
      → IsTurn stream s want (leave_frame copied flow (take m (drop pos f.content)) f)
  unfolding leave_frame
  leave_frame-IsTurn flow h = elim (Bool-cases (leb (length f.content) (pos + m))) [
    | inl whole ↦
        rw (leave_frame, whole, popped)
          (either-IsTurn stream s want f.fin_bit
            (popped-IsTurn flow true (some Stream.eof) h (ground arith) (λ c. ground arith))
            (popped-IsTurn flow s.finished_reading none h (ground arith) (λ c. ground arith)))
    | inr part ↦
        rw (leave_frame, part)
          record {
            reading = record {
              queue = r.queue;
              ordered = omega (arith, r.ordered, offset_fits h);
              bounded = omega arith;
            };
            bytes = copied_bytes h ∙ segment-cong stream _ _ _ _ refl (sym (copied_length h));
            offset = omega (arith, offset_fits h, copied_length h);
            written = refl;
            pending = refl;
            few = omega (arith, copied_length h);
            less = inr (ground (arith, copied_length h));
            fuelled = λ c. ground arith;
          }
  ]

  read_frame-IsTurn :
      (flow : Manager) (now : ℕ)
      → IsTurn stream s want (read_frame s flow now want f (sub_u64 s.read_offset f.offset))
  unfolding read_frame
  read_frame-IsTurn flow now =
      let same : pos ≡ sub_u64 s.read_offset f.offset = omega (arith, offset_bound, r.bounded) in
      subst (λ p. IsTurn stream s want (read_frame s flow now want f p)) same at
    where
      at : IsTurn stream s want (read_frame s flow now want f pos)
      at = elim (Bool-cases (leb (2 ^ 63) pos)) [
        | inl far ↦
            rw (read_frame, far)
              (ends-IsTurn stream s want flow Stream.panics r (λ c. ground arith))
        | inr near ↦ elim (Bool-cases (ltb (length f.content) pos)) [
          | inl behind ↦
              rw (read_frame, near, behind)
                record {
                  reading = record { queue = r.queue; ordered = r.ordered; bounded = r.bounded };
                  bytes = refl;
                  offset = omega arith;
                  written = refl;
                  pending = refl;
                  few = omega arith;
                  less = inl (λ c. ground arith);
                  fuelled = λ c. ground arith;
                }
          | inr inside ↦ rw (read_frame, near, inside) (leave_frame-IsTurn _ (ground arith))
        ]
      ]

module _ (stream : ℕ → ℕ) where
  pub read_round-IsTurn :
      (started expired : Bool) (now want : ℕ) (s : Stream) (flow : Manager)
      → IsReading stream s
      → 0 < want
      → IsTurn stream s want (read_round started expired now want s flow)
  unfolding read_round Sorter.head
  read_round-IsTurn started expired now want s flow r w =
      elim (Option-cases (lookup s.frame_queue.read_position s.frame_queue.queued_frames)) [
        | inl e ↦
            rw (read_round, Sorter.head, e)
              (either-IsTurn stream s want started
                (ends-IsTurn stream s want flow _ r (λ c. ground arith))
                (either-IsTurn stream s want (s.reset_locally || s.cancelled)
                  (ends-IsTurn stream s want flow _ r (λ c. ground arith))
                  (either-IsTurn stream s want expired
                    (ends-IsTurn stream s want flow _ r (λ c. ground arith))
                    (ends-IsTurn stream s want flow _ r (λ c. ground arith)))))
        | inr (f, e) ↦
            rw (read_round, Sorter.head, e)
              (either-IsTurn stream s want (s.reset_locally || s.cancelled)
                (ends-IsTurn stream s want flow _ r (λ c. ground arith))
                (either-IsTurn stream s want expired
                  (ends-IsTurn stream s want flow _ r (λ c. ground arith))
                  (read_frame-IsTurn stream s f want r e w flow now)))
      ]
