-- ===== src/Streams/Stream.antt =====
-- quic-go/stream.go: a stream, with the data that is read of it and the data that is written to it. A
-- method that holds the mutex is one step. Read, which is not thread safe, takes the mutex for the look
-- at the head of the queue and again for the pop, and not for the copy between them; here each round is
-- one step, so that a frame that arrives within a round counts as one that arrives after it. A wait on a
-- channel ends the step, and the call goes on with another round, or is made again, when it is signalled. The callbacks onData and onReset and the context are signals to the session.
pub mod Rounds
pub mod Reading
pub mod Methods
pub mod Taken
pub mod Reachable
use mpquic_sbd.Base.{
  ℕ, zero, suc, ◌+◌, ◌-◌, ◌^◌, Bool, true, false, not, ◌&&◌, ◌||◌, min, List, [], ◌∷◌, ◌++◌, Option,
  none, some, Result, ok, err, ltb, leb, ◌==◌, length, take, drop, if◌then◌else◌,
}
use mpquic_sbd.Protocol.{add_u64, sub_u64}
use mpquic_sbd.Wire.Stream.{StreamFrame}
use mpquic_sbd.Flow.Manager
use mpquic_sbd.Flow.Manager.{Manager, FlowError, manager_add_bytes_read, update_highest}
use mpquic_sbd.Streams.Sorter
use mpquic_sbd.Streams.Sorter.{Sorter, SortError, new_stream_frame_sorter}

-- `data_for_writing` is none where the slice is nil. Errors that the stream is given are numbers.
pub record Stream : Type 0 where
  pub stream_id : ℕ
  pub read_pos_in_frame : ℕ
  pub write_offset : ℕ
  pub read_offset : ℕ
  pub error : Option ℕ
  pub cancelled : Bool
  pub finished_reading : Bool
  pub finished_writing : Bool
  pub reset_locally : Bool
  pub reset_remotely : Bool
  pub frame_queue : Sorter
  pub data_for_writing : Option (List ℕ)
  pub fin_sent : Bool
  pub rst_sent : Bool

unfoldable pub new_stream : ℕ → Stream
new_stream id = record {
  stream_id = id;
  read_pos_in_frame = 0;
  write_offset = 0;
  read_offset = 0;
  error = none;
  cancelled = false;
  finished_reading = false;
  finished_writing = false;
  reset_locally = false;
  reset_remotely = false;
  frame_queue = new_stream_frame_sorter;
  data_for_writing = none;
  fin_sent = false;
  rst_sent = false;
}

-- Where a step of Read stops: with a full buffer, with the stream's error or none, at the end of the stream,
-- at the deadline, with an error that the code calls a bug, with a panic, or at a wait, where the call has not returned.
pub data Ending : Type 0 where
  full eof deadline read_pos_bug panics waits fuel_spent : Ending
  stopped : Option ℕ → Ending

-- The state after a round or a call, with the bytes copied; a round with no ending is followed by another.
pub record Turn : Type 0 where
  pub after : Stream
  pub flow : Manager
  pub bytes : List ℕ
  pub ending : Option Ending

abbrev pub ends : Stream → Manager → Ending → Turn
ends s flow e = record { after = s; flow = flow; bytes = []; ending = some e }

-- What a round leaves of the frame queue: a frame that is read to its end is popped.
unfoldable pub leave_frame : Stream → Manager → List ℕ → StreamFrame → Turn
leave_frame s flow bytes f =
    let popped : Stream = record s { frame_queue = (Sorter.pop s.frame_queue).1 } in
    if leb (length f.content) s.read_pos_in_frame
    then (if f.fin_bit
        then record {
          after = record popped { finished_reading = true };
          flow = flow;
          bytes = bytes;
          ending = some eof;
        }
        else record { after = popped; flow = flow; bytes = bytes; ending = none })
    else record { after = s; flow = flow; bytes = bytes; ending = none }

-- A round from the point on where the frame is there; `want` bytes of the buffer are left, and `pos` is
-- where to read in the frame.
unfoldable pub read_frame : Stream → Manager → ℕ → ℕ → StreamFrame → ℕ → Turn
read_frame s flow now want f pos =
    let m = min want (length f.content - pos) in
    let copied : Stream = record s {
      read_pos_in_frame = pos + m;
      read_offset = add_u64 s.read_offset m;
    } in
    if leb (2 ^ 63) pos
    then ends s flow panics
    else if ltb (length f.content) pos
    then ends (record s { read_pos_in_frame = pos }) flow read_pos_bug
    else leave_frame copied
        (if s.reset_remotely then flow else (manager_add_bytes_read flow s.stream_id m now).manager)
        (take m (drop pos f.content)) f

-- A round of Read, where `started` says that bytes have been read, and `expired` that a deadline is set
-- and has passed.
unfoldable pub read_round : Bool → Bool → ℕ → ℕ → Stream → Manager → Turn
read_round started expired now want s flow = elim (Sorter.head s.frame_queue) [
  | none ↦
      if started
      then ends s flow (stopped s.error)
      else if s.reset_locally || s.cancelled
      then ends s flow (stopped s.error)
      else if expired
      then ends s flow deadline
      else ends s flow waits
  | some f ↦
      if s.reset_locally || s.cancelled
      then ends s flow (stopped s.error)
      else if expired
      then ends s flow deadline
      else read_frame s flow now want f (sub_u64 s.read_offset f.offset)
]

abbrev pub after_bytes : List ℕ → Turn → Turn
after_bytes bytes t = record t { bytes = bytes ++ t.bytes }

-- The rounds of Read. Each reads at least a byte or pops a frame, so that the bytes wanted and the frames
-- queued are together rounds enough.
unfoldable pub read_rounds : ℕ → Bool → (ℕ → Bool) → ℕ → ℕ → Stream → Manager → Turn
read_rounds zero started expired now want s flow =
    ends s flow (if want == 0 then full else fuel_spent)
read_rounds (suc fuel) started expired now want s flow = elim (want == 0) [
  | true ↦ ends s flow full
  | false ↦
      let t = read_round started (expired fuel) now want s flow in
      elim t.ending [
        | some e ↦ t
        | none ↦ after_bytes t.bytes (
            read_rounds fuel (started || ltb 0 (length t.bytes)) expired now (want - length t.bytes)
              t.after t.flow)
      ]
]

-- Read into a buffer of `want` bytes, up to where it returns or first waits, with no other call between
-- its rounds; `expired` says at which rounds the deadline has passed.
unfoldable pub read : (ℕ → Bool) → ℕ → ℕ → Stream → Manager → Turn
read expired now want s flow =
    if s.cancelled || s.reset_locally
    then ends s flow (stopped s.error)
    else if s.finished_reading
    then ends s flow eof
    else read_rounds (want + length s.frame_queue.queued_frames) false expired now want s flow
