-- ===== src/Examples/Transfer.antt =====
-- Runs of quic-go/stream.go and quic-go/stream_framer.go on a small stream.
use mpquic_sbd.Base.{
  ℕ, ◌+◌, ◌≡◌, refl, true, false, List, [], ◌∷◌, Option, none, some, ◌==◌, if◌then◌else◌, arith,
  Bool-cases, subst, inl, inr,
}
use mpquic_sbd.Wire.Stream.{
  StreamFrame, stream_min_length, calculate_stream_id_length, get_offset_length,
}
use mpquic_sbd.Flow.Controller.{ConnectionParameters, FlowController}
use mpquic_sbd.Flow.Controller
use mpquic_sbd.Flow.Manager
use mpquic_sbd.Flow.Manager.{Manager}
use mpquic_sbd.Streams.Sorter
use mpquic_sbd.Streams.Framer
use mpquic_sbd.Streams.Open
use mpquic_sbd.Streams.Open.{StreamsMap}
use mpquic_sbd.Streams.Stream
use mpquic_sbd.Streams.Stream.{Stream, read, new_stream}
use mpquic_sbd.Streams.Stream.Methods.{add_stream_frame, write, get_data_for_writing}
use mpquic_sbd.Streams.Stream.Methods
use mpquic_sbd.Streams.Stream.Rounds.{IsReading}
use mpquic_sbd.Streams.Stream.Reading.{IsRead, read-IsRead}
use mpquic_sbd.Streams.Stream.Reachable
use mpquic_sbd.Streams.Stream.Reachable.{Run, IsTransferred, Run-IsTransferred}
use mpquic_sbd.Streams.Framer.{Framer, pointers, maybe_pop_frames_for_retransmission}
use mpquic_sbd.Streams.Framer.Normal.{pop_stream_frames}
use mpquic_sbd.Streams.Framer.Retransmission.{
  IsPopped, maybe_pop_frames_for_retransmission-IsPopped,
}
use mpquic_sbd.Streams.Framer.Sent.{AreReady, IsReady, IsFilled, pop_stream_frames-IsFilled}

abbrev pub frame : ℕ → List ℕ → StreamFrame
frame offset content = record {
  stream_id = 5;
  fin_bit = false;
  data_len_present = true;
  offset = offset;
  loss_count = 0;
  path_id = 0;
  time_stamp = 0;
  content = content;
}

abbrev pub numbers : ℕ → ℕ
numbers n = n + 10

abbrev controller : ℕ → FlowController
controller id = record {
  stream_id = id;
  contributes_to_connection = true;
  bytes_sent = 0;
  send_window = 500;
  bytes_retrans = 0;
  last_window_update_time = none;
  bytes_read = 0;
  highest_received = 0;
  receive_window = 1000;
  receive_window_increment = 400;
  max_receive_window_increment = 1000;
}

abbrev pub flow : Manager
flow = record { streams = (5, controller 5) ∷ []; connection = controller 0 }

abbrev pub params : ConnectionParameters
params = record {
  receive_connection_window = 1000;
  max_receive_connection_window = 1000;
  receive_stream_window = 1000;
  max_receive_stream_window = 1000;
  send_connection_window = 500;
  send_stream_window = 500;
}

-- A stream that has been given three bytes, of which one has been taken.
abbrev written : Stream
written = record (new_stream 5) { data_for_writing = some (10 ∷ 11 ∷ 12 ∷ []) }

abbrev sent : Stream
sent = record (new_stream 5) { data_for_writing = some (11 ∷ 12 ∷ []); write_offset = 1 }

writes : write (new_stream 5) (10 ∷ 11 ∷ 12 ∷ []) ≡ Methods.started written
unfolding write new_stream
writes = refl

sends : get_data_for_writing written 1 ≡ (some (10 ∷ []), sent)
unfolding get_data_for_writing new_stream
sends = refl

sent-Run : Run numbers numbers sent [] (10 ∷ [])
unfolding new_stream
sent-Run =
    Reachable.sends 1 (10 ∷ [])
      (Reachable.writes (10 ∷ 11 ∷ 12 ∷ []) (Reachable.starts 5) refl refl (omega arith) writes)
      sends

abbrev arrived : Stream
arrived = (add_stream_frame sent flow (frame 0 (10 ∷ 11 ∷ []))).after

arrived-Run : Run numbers numbers arrived [] (10 ∷ [])
arrived-Run =
    Reachable.adds flow (frame 0 (10 ∷ 11 ∷ [])) sent-Run
      record { bytes = refl; bounded = omega arith }

Run-IsTransferred_example : IsTransferred numbers numbers arrived [] (10 ∷ [])
Run-IsTransferred_example = Run-IsTransferred numbers numbers arrived-Run

arrived-IsReading : IsReading numbers arrived
arrived-IsReading = (Run-IsTransferred numbers numbers arrived-Run).reading

-- The two bytes that have arrived are read.
arrived-read : (read (λ round. false) 0 3 arrived flow).bytes ≡ 10 ∷ 11 ∷ []
unfolding read Stream.read_rounds Stream.read_round Stream.read_frame Stream.leave_frame
    add_stream_frame Manager.update_highest Manager.get_flow_controller new_stream Manager.account
    Controller.check_flow_control_violation Controller.update_highest_received
    Controller.increment_highest_received Sorter.push Sorter.push_data Sorter.lookup
    Sorter.new_stream_frame_sorter Sorter.push_new Sorter.push_at Sorter.find_gap
    Sorter.find_end_gap Sorter.store Controller.add_bytes_read Manager.manager_add_bytes_read
    Manager.put Sorter.delete Sorter.delete_all Sorter.fill_gaps Sorter.head Sorter.pop
    Sorter.skip_bytes
arrived-read = refl

arrived-IsRead : IsRead numbers arrived 3 (read (λ round. false) 0 3 arrived flow)
arrived-IsRead = read-IsRead numbers (λ round. false) 0 3 arrived flow arrived-IsReading

-- A lost frame of the stream waits to be sent again.
abbrev pub framer : Framer
framer = record {
  retransmission_queue = frame 0 (10 ∷ 11 ∷ 12 ∷ []) ∷ [];
  blocked_frame_queue = [];
  add_address_frame_queue = [];
  close_path_frame_queue = [];
  paths_frame = none;
}

-- Two bytes of it fit.
framer_splits :
    (maybe_pop_frames_for_retransmission framer flow 16).frames ≡ frame 0 (10 ∷ 11 ∷ []) ∷ []
unfolding maybe_pop_frames_for_retransmission Framer.pop_retransmissions
    Framer.maybe_split_off_frame stream_min_length calculate_stream_id_length get_offset_length
framer_splits = refl

maybe_pop_frames_for_retransmission-IsPopped_example :
    IsPopped 16 0
      (frame 0 (10 ∷ 11 ∷ 12 ∷ []) ∷ [])
      (maybe_pop_frames_for_retransmission framer flow 16)
maybe_pop_frames_for_retransmission-IsPopped_example =
    maybe_pop_frames_for_retransmission-IsPopped framer flow 16 (omega arith, tt)

-- The streams 3 and 5 are open, of which 5 has data.
abbrev pub streams_map : StreamsMap pointers
streams_map = record {
  perspective = Open.server;
  streams = (1, 1) ∷ (3, 3) ∷ (5, 5) ∷ [];
  open_streams = 1 ∷ 3 ∷ 5 ∷ [];
  round_robin_index = 0;
  next_stream = 2;
  highest_stream_opened_by_peer = 5;
  close_err = none;
  next_stream_to_accept = 7;
  num_outgoing_streams = 0;
  num_incoming_streams = 3;
}

abbrev pub streams : ℕ → Option Stream
streams id = if id == 5 then some sent else none

pub streams-AreReady : AreReady (λ id. numbers) streams
unfolding new_stream
streams-AreReady id s e = elim (Bool-cases (id == 5)) [
  | inl t ↦
      let five : 5 ≡ id = ground arith in
      let same : sent ≡ s = ground arith in
      subst (IsReady (λ i. numbers) id) same
        record { stream_id = five; pending = (refl, omega arith) }
  | inr t ↦ absurd (ground arith)
]

pop_stream_frames-IsFilled_example :
    IsFilled
      (λ id. numbers)
      params
      100
      (pop_stream_frames params framer streams_map flow streams 100)
pop_stream_frames-IsFilled_example =
    pop_stream_frames-IsFilled (λ id. numbers) params framer streams_map flow streams 100
      streams-AreReady (record { bytes = refl; bounded = omega arith }, tt)
