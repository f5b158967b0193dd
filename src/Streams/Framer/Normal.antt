-- ===== src/Streams/Framer/Normal.antt =====
-- quic-go/stream_framer.go: maybePopNormalFrames and PopStreamFrames.
use mpquic_sbd.Base.{
  ℕ, ◌+◌, ◌-◌, Bool, true, false, not, ◌&&◌, List, [], ◌∷◌, ◌++◌, Option, none, some, Result, ok,
  err, ltb, ◌==◌, length, if◌then◌else◌,
}
use mpquic_sbd.Protocol.{sub_u64}
use mpquic_sbd.Wire.Stream.{StreamFrame, stream_min_length}
use mpquic_sbd.Wire.Control.{BlockedFrame}
use mpquic_sbd.Flow.Controller.{ConnectionParameters, min_byte_count}
use mpquic_sbd.Flow.Manager.{
  Manager, FlowError, manager_add_bytes_sent, manager_send_window_size,
  remaining_connection_window_size,
}
use mpquic_sbd.Streams.Open.{StreamsMap, StreamsError}
use mpquic_sbd.Streams.Open.Iteration.{round_robin_iterate}
use mpquic_sbd.Streams.Stream.{Stream}
use mpquic_sbd.Streams.Stream.Methods.{
  is_none, len_of_data_for_writing, get_data_for_writing, should_send_fin, sent_fin,
}
use mpquic_sbd.Streams.Framer.{
  Framer, Sending, empty_frame, content_of, with_stream, pointers,
  maybe_pop_frames_for_retransmission,
}

-- An error of the flow control leaves a window of 0.
abbrev pub window_or_zero : Result FlowError ℕ → ℕ
window_or_zero (ok n) = n
window_or_zero (err e) = 0

module _ (params : ConnectionParameters) where
  abbrev pub blocked_by : ℕ → Manager → ℕ → StreamFrame → List BlockedFrame
  blocked_by id flow window f =
      if remaining_connection_window_size params flow == 0
      then record { stream_id = 0 } ∷ []
      else if not f.fin_bit && sub_u64 window (length f.content) == 0
      then record { stream_id = id } ∷ []
      else []

  -- What the frame leaves, where `s` is the stream after it has given the frame's data.
  abbrev pub send_frame : ℕ → ℕ → Stream → ℕ → StreamFrame → Sending → Sending
  send_frame header id s window f w =
      let flow = (manager_add_bytes_sent w.flow s.stream_id (length f.content)).manager in
      record {
        streams = with_stream id (if f.fin_bit then sent_fin s else s) w.streams;
        flow = flow;
        current_len = w.current_len + (header + length f.content);
        frames = w.frames ++ (f ∷ []);
        blocked = w.blocked ++ blocked_by s.stream_id flow window f;
      }

  -- The data that a stream gives, of which at most `max_len` bytes are taken.
  abbrev pub taken_of : Stream → ℕ → Option (List ℕ) × Stream
  taken_of s max_len =
      if len_of_data_for_writing s == 0 then (none, s) else get_data_for_writing s max_len

  unfoldable pub pop_taken :
      ℕ
      → ℕ
      → ℕ
      → StreamFrame
      → ℕ
      → Option (List ℕ) × Stream
      → Sending
      → Result StreamsError Bool × Sending
  pop_taken max_bytes header id f window taken w =
      let fin = should_send_fin taken.1 in
      let full = record f { fin_bit = fin; content = content_of taken.0 } in
      let sent = send_frame header id taken.1 window full w in
      if is_none taken.0 && not fin
      then (ok true, record w { streams = with_stream id taken.1 w.streams })
      else (ok (not (sent.current_len == max_bytes)), sent)

  -- The callback, for the stream `s` that `id` points to.
  unfoldable pub pop_frame_of : ℕ → ℕ → Stream → Sending → Result StreamsError Bool × Sending
  pop_frame_of max_bytes id s w =
      let f = empty_frame true s.stream_id s.write_offset in
      let header = stream_min_length f in
      let space = max_bytes - (w.current_len + header) in
      let has_data = not (len_of_data_for_writing s == 0) in
      let window =
        if has_data
        then window_or_zero (manager_send_window_size params w.flow s.stream_id)
        else 0 in
      let max_len = if has_data then min_byte_count space window else space in
      if ltb max_bytes (w.current_len + header)
      then (ok false, w)
      else if max_len == 0
      then (ok true, w)
      else pop_taken max_bytes header id f window (taken_of s max_len) w

  unfoldable pub pop_normal_frame : ℕ → ℕ → Sending → Result StreamsError Bool × Sending
  pop_normal_frame max_bytes id w = elim (w.streams id) [
    | none ↦ (ok true, w)
    | some s ↦ if s.stream_id == 1 then (ok true, w) else pop_frame_of max_bytes id s w
  ]

  -- The map, with the index that the iteration moves, and what the callback has done.
  unfoldable pub maybe_pop_normal_frames :
      StreamsMap pointers → Manager → (ℕ → Option Stream) → ℕ → StreamsMap pointers × Sending
  maybe_pop_normal_frames m flow streams max_bytes =
      let start : Sending = record {
        streams = streams;
        flow = flow;
        current_len = 0;
        frames = [];
        blocked = [];
      } in
      let over = round_robin_iterate pointers (pop_normal_frame max_bytes) m start in
      (over.after, over.world)

  -- What PopStreamFrames returns, and what it leaves.
  pub record Popped : Type 0 where
    pub frames : List StreamFrame
    pub framer : Framer
    pub streams_map : StreamsMap pointers
    pub streams : ℕ → Option Stream
    pub flow : Manager

  unfoldable pub pop_stream_frames :
      Framer → StreamsMap pointers → Manager → (ℕ → Option Stream) → ℕ → Popped
  pop_stream_frames r m flow streams max_len =
      let again = maybe_pop_frames_for_retransmission r flow max_len in
      let (turned, w) =
        maybe_pop_normal_frames m again.flow streams (max_len - again.current_len) in
      record {
        frames = again.frames ++ w.frames;
        framer = record r {
          retransmission_queue = again.queue;
          blocked_frame_queue = r.blocked_frame_queue ++ w.blocked;
        };
        streams_map = turned;
        streams = w.streams;
        flow = w.flow;
      }
