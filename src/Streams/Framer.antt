-- ===== src/Streams/Framer.antt =====
-- quic-go/stream_framer.go: the frames that a packet takes from the streams and from the queues. The
-- map of streams holds pointers, which are the ids of the streams; what they point to is `streams`.
pub mod Normal
pub mod Retransmission
pub mod Given
pub mod Sent
use mpquic_sbd.Base.{
  ℕ, zero, suc, ◌+◌, ◌-◌, ◌*◌, ◌%◌, ◌^◌, ◌≡◌, refl, Bool, true, false, not, ◌&&◌, ◌||◌, min, List,
  [], ◌∷◌, ◌++◌, Option, none, some, Result, ok, err, ltb, leb, ◌==◌, length, take, drop, map,
  if◌then◌else◌,
}
use mpquic_sbd.Protocol.{add_u64, sub_u64}
use mpquic_sbd.Wire.Stream.{StreamFrame, stream_min_length}
use mpquic_sbd.Wire.Control.{BlockedFrame}
use mpquic_sbd.AckHandler.Sent.{ClosePathFrame}
use mpquic_sbd.Flow.Controller.{ConnectionParameters}
use mpquic_sbd.Flow.Manager.{
  Manager, manager_add_bytes_sent, manager_add_bytes_retrans, manager_send_window_size,
  remaining_connection_window_size,
}
use mpquic_sbd.Streams.Open.{StreamType, StreamsMap, StreamsError}
use mpquic_sbd.Streams.Open.Iteration.{Iterated, round_robin_iterate}
use mpquic_sbd.Streams.Stream
use mpquic_sbd.Streams.Stream.{Stream}
use mpquic_sbd.Streams.Stream.Methods.{
  is_none, len_of_data_for_writing, get_data_for_writing, should_send_fin, sent_fin,
}

-- The address is its bytes and its port.
pub record AddAddressFrame : Type 0 where
  pub ip_version : ℕ
  pub ip : List ℕ
  pub port : ℕ

pub record PathsFrame : Type 0 where
  pub max_num_paths : ℕ
  pub num_paths : ℕ
  pub path_ids : List ℕ
  pub remote_rtts : List ℕ

pub record Framer : Type 0 where
  pub retransmission_queue : List StreamFrame
  pub blocked_frame_queue : List BlockedFrame
  pub add_address_frame_queue : List AddAddressFrame
  pub close_path_frame_queue : List ClosePathFrame
  pub paths_frame : Option PathsFrame

unfoldable pub new_stream_framer : Framer
new_stream_framer = record {
  retransmission_queue = [];
  blocked_frame_queue = [];
  add_address_frame_queue = [];
  close_path_frame_queue = [];
  paths_frame = none;
}

unfoldable pub add_frame_for_retransmission : Framer → StreamFrame → Framer
add_frame_for_retransmission r f = record r {
  retransmission_queue = r.retransmission_queue ++ (f ∷ []);
}

unfoldable pub pop_blocked_frame : Framer → Option BlockedFrame × Framer
pop_blocked_frame r = elim r.blocked_frame_queue [
  | [] ↦ (none, r)
  | f ∷ rest ↦ (some f, record r { blocked_frame_queue = rest })
]

unfoldable pub add_address_for_transmission : Framer → ℕ → List ℕ → ℕ → Framer
add_address_for_transmission r ip_version ip port = record r {
  add_address_frame_queue =
      r.add_address_frame_queue ++ (record { ip_version = ip_version; ip = ip; port = port } ∷ []);
}

unfoldable pub pop_add_address_frame : Framer → Option AddAddressFrame × Framer
pop_add_address_frame r = elim r.add_address_frame_queue [
  | [] ↦ (none, r)
  | f ∷ rest ↦ (some f, record r { add_address_frame_queue = rest })
]

-- What the frame says of a path; a time is a number of nanoseconds.
pub record PathState : Type 0 where
  pub path_id : ℕ
  pub potentially_failed : Bool
  pub smoothed_rtt : ℕ

abbrev pub hour : ℕ
hour = 3600 * (1000 * (1000 * 1000))

-- The paths come in the order in which Go iterates over the map.
unfoldable pub add_paths_frame_for_transmission : Framer → List PathState → Framer
add_paths_frame_for_transmission r paths = record r {
  paths_frame = some record {
    max_num_paths = 255;
    num_paths = length paths % 256;
    path_ids = map (λ (p : PathState). p.path_id) paths;
    remote_rtts =
        map (λ (p : PathState). if p.potentially_failed then hour else p.smoothed_rtt) paths;
  };
}

unfoldable pub pop_paths_frame : Framer → Option PathsFrame × Framer
pop_paths_frame r = (r.paths_frame, record r { paths_frame = none })

unfoldable pub add_close_path_frame_for_transmission : Framer → ClosePathFrame → Framer
add_close_path_frame_for_transmission r f = record r {
  close_path_frame_queue = r.close_path_frame_queue ++ (f ∷ []);
}

unfoldable pub pop_close_path_frame : Framer → Option ClosePathFrame × Framer
pop_close_path_frame r = elim r.close_path_frame_queue [
  | [] ↦ (none, r)
  | f ∷ rest ↦ (some f, record r { close_path_frame_queue = rest })
]

unfoldable pub has_frames_for_retransmission : Framer → Bool
has_frames_for_retransmission r = ltb 0 (length r.retransmission_queue)

-- A frame of a stream with no data yet.
abbrev pub empty_frame : Bool → ℕ → ℕ → StreamFrame
empty_frame data_len_present id offset = record {
  stream_id = id;
  fin_bit = false;
  data_len_present = data_len_present;
  offset = offset;
  loss_count = 0;
  path_id = 0;
  time_stamp = 0;
  content = [];
}

abbrev pub content_of : Option (List ℕ) → List ℕ
content_of none = []
content_of (some bytes) = bytes

-- `s` is the crypto stream.
unfoldable pub has_crypto_stream_frame : Stream → Bool
has_crypto_stream_frame s = ltb 0 (len_of_data_for_writing s)

unfoldable pub pop_crypto_stream_frame : Stream → ℕ → Option StreamFrame × Stream
pop_crypto_stream_frame s max_len =
    let f = empty_frame false 1 s.write_offset in
    let taken = get_data_for_writing s (sub_u64 max_len (stream_min_length f)) in
    if has_crypto_stream_frame s
    then (some (record f { content = content_of taken.0 }), taken.1)
    else (none, s)

-- The frame that is split off, and what is left of the frame.
unfoldable pub maybe_split_off_frame : StreamFrame → ℕ → Option (StreamFrame × StreamFrame)
maybe_split_off_frame f n =
    if leb (length f.content) n
    then none
    else some (
      record f { fin_bit = false; content = take n f.content; loss_count = 0 },
      record f { content = drop n f.content; offset = add_u64 f.offset n },
    )

-- What the loop of maybePopFramesForRetransmission has popped, and what it leaves.
pub record Retransmitted : Type 0 where
  pub frames : List StreamFrame
  pub queue : List StreamFrame
  pub flow : Manager
  pub current_len : ℕ

abbrev pub with_data_len : StreamFrame → StreamFrame
with_data_len f = record f { data_len_present = true }

abbrev pub counted : Manager → StreamFrame → Manager
counted flow f = (manager_add_bytes_retrans flow f.stream_id (length f.content)).manager

abbrev pub popped_first : StreamFrame → Retransmitted → Retransmitted
popped_first f r = record r { frames = f ∷ r.frames }

unfoldable pub pop_retransmissions : ℕ → ℕ → List StreamFrame → Manager → Retransmitted
pop_retransmissions max_len current_len [] flow = record {
  frames = [];
  queue = [];
  flow = flow;
  current_len = current_len;
}
pop_retransmissions max_len current_len (queued ∷ rest) flow =
    let f = with_data_len queued in
    let start = current_len + stream_min_length f in
    let later = pop_retransmissions max_len (start + length f.content) rest (counted flow f) in
    if leb max_len start
    then record { frames = []; queue = f ∷ rest; flow = flow; current_len = current_len }
    else elim (maybe_split_off_frame f (max_len - start)) [
      | some split ↦ record {
        frames = split.0 ∷ [];
        queue = split.1 ∷ rest;
        flow = counted flow split.0;
        current_len = start + length split.0.content;
      }
      | none ↦ popped_first f later
    ]

unfoldable pub maybe_pop_frames_for_retransmission : Framer → Manager → ℕ → Retransmitted
maybe_pop_frames_for_retransmission r flow max_len =
    pop_retransmissions max_len 0 r.retransmission_queue flow

-- What the callback of maybePopNormalFrames works on; a nil pointer points to none.
pub record Sending : Type 0 where
  pub streams : ℕ → Option Stream
  pub flow : Manager
  pub current_len : ℕ
  pub frames : List StreamFrame
  pub blocked : List BlockedFrame

abbrev pub with_stream : ℕ → Stream → (ℕ → Option Stream) → ℕ → Option Stream
with_stream id s streams other = if other == id then some s else streams other

-- The pointers as the streams of the map.
abbrev pub pointers : StreamType
pointers = record {
  Stream = ℕ;
  new_stream = λ id. id;
  stream_id = λ s. s;
  cancel = λ e s. s;
  stream_id-new_stream = λ id. refl;
}
