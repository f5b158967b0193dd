-- ===== src/Examples/Streams.antt =====
-- Runs of quic-go/stream_frame_sorter.go on small streams, and of quic-go/streams_map.go.
use mpquic_sbd.Base.{ℕ, ◌+◌, ◌-◌, ◌^◌, ◌≡◌, ◌≢◌, refl, true, false, not, List, [], ◌∷◌, some, arith}
use mpquic_sbd.Wire.Stream.{StreamFrame}
use mpquic_sbd.Streams.Sorter
use mpquic_sbd.Streams.Sorter.{Sorter, new_stream_frame_sorter, push, pop}
use mpquic_sbd.Streams.Sorter.Gaps.{missing}
use mpquic_sbd.Streams.Sorter.Delivery
use mpquic_sbd.Streams.Sorter.Delivery.{IsPart, IsDelivered, Run-IsDelivered}
use mpquic_sbd.Streams.Sorter.Received
use mpquic_sbd.Streams.Sorter.Received.{Run-missing, push-finds_gaps, arrived}
use mpquic_sbd.Streams.Open
use mpquic_sbd.Streams.Open.{
  StreamType, StreamsMap, new_streams_map, get_or_open_stream, open_stream, remove_stream,
}
use mpquic_sbd.Streams.Open.Counted.{Inv}
use mpquic_sbd.Streams.Open.Reachable.{Reach-Counted}
use mpquic_sbd.Streams.Open.Reachable
use mpquic_sbd.Base.{ok}

abbrev frame : ℕ → List ℕ → StreamFrame
frame offset content = record {
  stream_id = 5;
  fin_bit = false;
  data_len_present = true;
  offset = offset;
  loss_count = 0;
  path_id = 0;
  time_stamp = 0;
  content = content;
}

abbrev later : StreamFrame
later = frame 2 (12 ∷ 13 ∷ [])

abbrev earlier : StreamFrame
earlier = frame 0 (10 ∷ 11 ∷ 12 ∷ [])

abbrev both : Sorter
both = (push (push new_stream_frame_sorter later).sorter earlier).sorter

abbrev numbers : ℕ → ℕ
numbers n = n + 10

-- The earlier frame is cut where the later one starts.
both_gaps : both.gaps ≡ record { start = 4; end = 2 ^ 64 - 1 } ∷ []
unfolding push Sorter.push_data Sorter.push_new Sorter.push_at Sorter.store Sorter.find_gap
    Sorter.find_end_gap Sorter.fill_gaps Sorter.lookup Sorter.delete_all Sorter.delete
    Sorter.skip_bytes new_stream_frame_sorter
both_gaps = refl

both-pop : (pop both).0 ≡ some (frame 0 (10 ∷ 11 ∷ []))
unfolding pop Sorter.head push Sorter.push_data Sorter.push_new Sorter.push_at Sorter.store
    Sorter.find_gap Sorter.find_end_gap Sorter.fill_gaps Sorter.lookup Sorter.delete_all
    Sorter.delete Sorter.skip_bytes new_stream_frame_sorter
both-pop = refl

both-Run : Received.Run both (earlier ∷ later ∷ [])
both-Run =
    Received.pushes earlier (Received.pushes later Received.starts (omega arith)) (omega arith)

Run-missing_example : missing 4 both.gaps ≡ not (arrived 4 (earlier ∷ later ∷ []))
Run-missing_example = Run-missing 4 both-Run (omega arith)

push-finds_gaps_example :
    ((push both (frame 1 (11 ∷ 12 ∷ 13 ∷ 14 ∷ []))).error ≢ some Sorter.no_gap_found)
    × ((push both (frame 1 (11 ∷ 12 ∷ 13 ∷ 14 ∷ []))).error ≢ some Sorter.no_end_gap_found)
push-finds_gaps_example = push-finds_gaps (frame 1 (11 ∷ 12 ∷ 13 ∷ 14 ∷ [])) both-Run (omega arith)

popped : pop both ≡ (some (frame 0 (10 ∷ 11 ∷ [])), (pop both).1)
unfolding pop Sorter.head push Sorter.push_data Sorter.push_new Sorter.push_at Sorter.store
    Sorter.find_gap Sorter.find_end_gap Sorter.fill_gaps Sorter.lookup Sorter.delete_all
    Sorter.delete Sorter.skip_bytes new_stream_frame_sorter
popped = refl

delivery : Delivery.Run numbers (pop both).1 (10 ∷ 11 ∷ [])
delivery =
    Delivery.pops
      (Delivery.pushes earlier
        (Delivery.pushes later Delivery.starts record { bytes = refl; bounded = omega arith })
        record { bytes = refl; bounded = omega arith })
      popped

Run-IsDelivered_example : IsDelivered numbers (pop both).1 (10 ∷ 11 ∷ [])
Run-IsDelivered_example = Run-IsDelivered numbers delivery

-- A frame that ends the stream is cut where a frame that came before it starts, and still says that it
-- ends the stream: byte 2 is left in the queue.
cut_keeps_fin :
    (pop
      (push
        (push new_stream_frame_sorter (frame 2 (12 ∷ []))).sorter
        (record (frame 0 (10 ∷ 11 ∷ 12 ∷ [])) { fin_bit = true })).sorter).0
    ≡ some (record (frame 0 (10 ∷ 11 ∷ [])) { fin_bit = true })
unfolding pop Sorter.head push Sorter.push_data Sorter.push_new Sorter.push_at Sorter.store
    Sorter.find_gap Sorter.find_end_gap Sorter.fill_gaps Sorter.lookup Sorter.delete_all
    Sorter.delete Sorter.skip_bytes new_stream_frame_sorter
cut_keeps_fin = refl

-- Streams that are no more than their ids.
abbrev ids_only : StreamType
ids_only = record {
  Stream = ℕ;
  new_stream = λ id. id;
  stream_id = λ s. s;
  cancel = λ e s. s;
  stream_id-new_stream = λ id. refl;
}

abbrev two_open : StreamsMap ids_only
two_open = (get_or_open_stream ids_only 100 (new_streams_map ids_only Open.server) 3).after

-- The stream 3 of the peer opens the stream 1 too.
two_open_streams : two_open.open_streams ≡ 1 ∷ 3 ∷ []
unfolding get_or_open_stream Open.open_up_to Open.open_remote_stream Open.put_stream
    Open.find_stream new_streams_map
two_open_streams = refl

abbrev one_left : StreamsMap ids_only
one_left = record two_open {
  num_incoming_streams = 1;
  open_streams = 3 ∷ [];
  streams = (3, 3) ∷ [];
}

two_open-remove_stream : remove_stream ids_only two_open 1 ≡ ok one_left
unfolding remove_stream Open.remove_open Open.is_before Open.delete_stream get_or_open_stream
    Open.open_up_to Open.open_remote_stream Open.put_stream Open.find_stream new_streams_map
two_open-remove_stream = refl

Reach-Counted_example : Inv ids_only one_left
Reach-Counted_example = Reach-Counted ids_only (
    Reachable.steps
      (Reachable.steps (Reachable.starts Open.server) (Reachable.gets 100 3 (omega arith)))
      (Reachable.removes 1 two_open-remove_stream))
