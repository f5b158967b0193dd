-- ===== src/Streams/Stream/Reachable.antt =====
-- The calls on a stream, from a new one on: what is read of it, and what is taken from it to be sent.
use mpquic_sbd.Base.{
  ℕ, ◌+◌, ◌^◌, ◌<◌, ◌≡◌, refl, ◌∙◌, ap, subst, inl, inr, Bool, List, [], ◌++◌, none, some, length,
  Option-cases, arith,
}
use mpquic_sbd.Protocol.{add_u64}
use mpquic_sbd.Wire.Stream.{StreamFrame}
use mpquic_sbd.Flow.Manager.{Manager, update_highest}
use mpquic_sbd.Streams.Sorter.{new_stream_frame_sorter}
use mpquic_sbd.Streams.Sorter.Delivery.{segment, segment-cong, segment-append, IsPart, push-IsKept}
use mpquic_sbd.Streams.Stream.{Stream, read, read_round, new_stream}
use mpquic_sbd.Streams.Stream.Rounds.{IsReading, read_round-IsTurn}
use mpquic_sbd.Streams.Stream.Reading.{read-IsRead}
use mpquic_sbd.Streams.Stream.Methods
use mpquic_sbd.Streams.Stream.Methods.{
  write, get_data_for_writing, close, sent_fin, add_stream_frame, close_remote, cancel, reset,
  register_remote_error, send_reset, sent_data,
}
use mpquic_sbd.Streams.Stream.Taken.{IsPending, get_data_for_writing-IsTaken}

-- `read` and `sent` are the bytes that have been read of the stream and taken from it to be sent.
pub record IsTransferred (incoming outgoing : ℕ → ℕ) (s : Stream) (read sent : List ℕ)
    : Type 0 where
  pub reading : IsReading incoming s
  pub pending : IsPending outgoing s.write_offset s.data_for_writing
  pub read_so_far : read ≡ segment incoming 0 s.read_offset
  pub sent_so_far : sent ≡ segment outgoing 0 s.write_offset

-- The bytes up to an offset, and those that follow.
joined :
    (stream : ℕ → ℕ) (before bytes : List ℕ) (offset after : ℕ)
    → before ≡ segment stream 0 offset
    → bytes ≡ segment stream offset (length bytes)
    → after ≡ offset + length bytes
    → before ++ bytes ≡ segment stream 0 after
joined stream before bytes offset after b e o =
    ap (λ l. l ++ bytes) b
    ∙ ap (λ l. segment stream 0 offset ++ l)
        (e ∙ segment-cong stream offset (0 + offset) _ _ (omega arith) refl)
    ∙ segment-append stream 0 offset (length bytes)
    ∙ segment-cong stream 0 0 _ _ refl (omega (arith, o))

-- The calls that move no data.
pub data Change : Stream → Stream → Type 0 where
  closes : {s : Stream} → Change s (close s)
  sends_fin : {s : Stream} → Change s (sent_fin s)
  cancels : {s : Stream} (e : ℕ) → Change s (cancel s e)
  resets : {s : Stream} (e : ℕ) → Change s (reset s e)
  reset_by_peer : {s : Stream} (e : ℕ) → Change s (register_remote_error s e)

-- The calls, from a new stream on. The peer's frames hold bytes of the incoming stream, and a call of
-- Write, which comes after the end of the one before, writes the next bytes of the outgoing stream. A call
-- of Read is made in one step, or round by round, with other calls between its rounds.
module _ (incoming outgoing : ℕ → ℕ) where
  pub data Run : Stream → List ℕ → List ℕ → Type 0 where
    starts : (id : ℕ) → Run (new_stream id) [] []
    changes : {s s' : Stream} {r w : List ℕ} → Run s r w → Change s s' → Run s' r w
    adds :
        {s : Stream} {r w : List ℕ} (flow : Manager) (f : StreamFrame)
        → Run s r w
        → IsPart incoming f
        → Run (add_stream_frame s flow f).after r w
    closes_remote :
        {s : Stream} {r w : List ℕ} (flow : Manager) (offset : ℕ)
        → Run s r w
        → offset < 2 ^ 64
        → Run (close_remote s flow offset).after r w
    reads :
        {s : Stream} {r w : List ℕ} (expired : ℕ → Bool) (now want : ℕ) (flow : Manager)
        → Run s r w
        → Run (read expired now want s flow).after (r ++ (read expired now want s flow).bytes) w
    reads_round :
        {s : Stream} {r w : List ℕ} (started expired : Bool) (now want : ℕ) (flow : Manager)
        → Run s r w
        → 0 < want
        → Run
            (read_round started expired now want s flow).after
            (r ++ (read_round started expired now want s flow).bytes)
            w
    writes :
        {s s' : Stream} {r w : List ℕ} (p : List ℕ)
        → Run s r w
        → s.data_for_writing ≡ none
        → p ≡ segment outgoing s.write_offset (length p)
        → s.write_offset + length p < 2 ^ 64
        → write s p ≡ Methods.started s'
        → Run s' r w
    sends :
        {s s' : Stream} {r w : List ℕ} (max : ℕ) (d : List ℕ)
        → Run s r w
        → get_data_for_writing s max ≡ (some d, s')
        → Run s' r (w ++ d)

  -- Another state with the same data.
  record IsSame (s s' : Stream) : Type 0 where
    frame_queue : s'.frame_queue ≡ s.frame_queue
    read_offset : s'.read_offset ≡ s.read_offset
    write_offset : s'.write_offset ≡ s.write_offset
    data_for_writing : s'.data_for_writing ≡ s.data_for_writing

  IsSame-IsTransferred :
      (s s' : Stream) (r w : List ℕ)
      → IsSame s s'
      → IsTransferred incoming outgoing s r w
      → IsTransferred incoming outgoing s' r w
  IsSame-IsTransferred s s' r w e t = record {
    reading =
        rw (e.frame_queue, e.read_offset)
          record {
            queue = t.reading.queue;
            ordered = t.reading.ordered;
            bounded = t.reading.bounded;
          };
    pending = rw (e.write_offset, e.data_for_writing) t.pending;
    read_so_far = rw e.read_offset t.read_so_far;
    sent_so_far = rw e.write_offset t.sent_so_far;
  }

  Change-IsSame : {s s' : Stream} → Change s s' → IsSame s s'
  unfolding close sent_fin cancel reset register_remote_error send_reset
  Change-IsSame closes = record {
    frame_queue = refl;
    read_offset = refl;
    write_offset = refl;
    data_for_writing = refl;
  }
  Change-IsSame sends_fin = record {
    frame_queue = refl;
    read_offset = refl;
    write_offset = refl;
    data_for_writing = refl;
  }
  Change-IsSame (cancels e) = record {
    frame_queue = refl;
    read_offset = refl;
    write_offset = refl;
    data_for_writing = refl;
  }
  Change-IsSame (resets e) = record {
    frame_queue = ground arith;
    read_offset = ground arith;
    write_offset = ground arith;
    data_for_writing = ground arith;
  }
  Change-IsSame (reset_by_peer e) = record {
    frame_queue = ground arith;
    read_offset = ground arith;
    write_offset = ground arith;
    data_for_writing = ground arith;
  }

  add_stream_frame-IsTransferred :
      (s : Stream) (flow : Manager) (f : StreamFrame) (r w : List ℕ)
      → IsPart incoming f
      → IsTransferred incoming outgoing s r w
      → IsTransferred incoming outgoing (add_stream_frame s flow f).after r w
  unfolding add_stream_frame
  add_stream_frame-IsTransferred s flow f r w p t =
      elim (Option-cases
        (update_highest flow s.stream_id (add_u64 f.offset (length f.content))).error) [
          | inr (e, failed) ↦ rw (add_stream_frame, failed) t
          | inl fine ↦
              let kept = push-IsKept incoming s.frame_queue f p t.reading.queue in
              rw (add_stream_frame, fine)
                record {
                  reading = record {
                    queue = kept.queue;
                    ordered = omega (arith, kept.at_position, t.reading.ordered);
                    bounded = t.reading.bounded;
                  };
                  pending = t.pending;
                  read_so_far = t.read_so_far;
                  sent_so_far = t.sent_so_far;
                }
        ]

  -- In every state that calls on a new stream reach, where the frames that arrive hold bytes of one
  -- stream and the calls of Write write the bytes of another one in their order, the bytes that Read has
  -- copied are together those of the incoming stream before the read offset, and the data that
  -- getDataForWriting has taken are together those of the outgoing stream before the write offset.
  pub Run-IsTransferred :
      {s : Stream} {r w : List ℕ} → Run s r w → IsTransferred incoming outgoing s r w
  unfolding new_stream new_stream_frame_sorter close_remote write
  Run-IsTransferred (starts id) = record {
    reading = record { queue = tt; ordered = omega arith; bounded = omega arith };
    pending = omega arith;
    read_so_far = refl;
    sent_so_far = refl;
  }
  Run-IsTransferred (changes {s} {s'} {r} {w} run c) =
      IsSame-IsTransferred s s' r w (Change-IsSame c) (Run-IsTransferred run)
  Run-IsTransferred (adds {s} {r} {w} flow f run p) =
      add_stream_frame-IsTransferred s flow f r w p (Run-IsTransferred run)
  Run-IsTransferred (closes_remote {s} {r} {w} flow offset run b) =
      add_stream_frame-IsTransferred s flow _ r w record { bytes = refl; bounded = omega arith }
        (Run-IsTransferred run)
  Run-IsTransferred (reads {s} {r} {w} expired now want flow run) =
      let t = Run-IsTransferred run in
      let d = read-IsRead incoming expired now want s flow t.reading in
      record {
        reading = d.reading;
        pending = rw (d.written, d.pending) t.pending;
        read_so_far = joined incoming r _ s.read_offset _ t.read_so_far d.bytes d.offset;
        sent_so_far = rw d.written t.sent_so_far;
      }
  Run-IsTransferred (reads_round {s} {r} {w} started expired now want flow run h) =
      let t = Run-IsTransferred run in
      let d = read_round-IsTurn incoming started expired now want s flow t.reading h in
      record {
        reading = d.reading;
        pending = rw (d.written, d.pending) t.pending;
        read_so_far = joined incoming r _ s.read_offset _ t.read_so_far d.bytes d.offset;
        sent_so_far = rw d.written t.sent_so_far;
      }
  Run-IsTransferred (writes {s} {s'} {r} {w} p run free b h e) =
      let t = Run-IsTransferred run in
      let same : record s { data_for_writing = some p } ≡ s' = ground arith in
      subst (λ z. IsTransferred incoming outgoing z r w) same
        record {
          reading = record {
            queue = t.reading.queue;
            ordered = t.reading.ordered;
            bounded = t.reading.bounded;
          };
          pending = (b, h);
          read_so_far = t.read_so_far;
          sent_so_far = t.sent_so_far;
        }
  Run-IsTransferred (sends {s} {s'} {r} {w} max d run e) =
      let t = Run-IsTransferred run in
      let k = get_data_for_writing-IsTaken outgoing s s' max d t.pending e in
      record {
        reading =
            rw (k.queue, k.read_offset)
              record {
                queue = t.reading.queue;
                ordered = t.reading.ordered;
                bounded = t.reading.bounded;
              };
        pending = k.pending;
        read_so_far = rw k.read_offset t.read_so_far;
        sent_so_far = joined outgoing w d s.write_offset _ t.sent_so_far k.bytes_of k.offset;
      }
