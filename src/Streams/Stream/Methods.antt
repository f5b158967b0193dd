-- ===== src/Streams/Stream/Methods.antt =====
-- quic-go/stream.go: writing, closing, resetting, and the frames that arrive.
use mpquic_sbd.Base.{
  ℕ, ◌-◌, Bool, true, false, not, ◌&&◌, ◌||◌, List, [], Option, none, some, ltb, ◌==◌, length, take,
  drop, if◌then◌else◌,
}
use mpquic_sbd.Protocol.{add_u64}
use mpquic_sbd.Wire.Stream.{StreamFrame}
use mpquic_sbd.Flow.Manager.{Manager, FlowError, update_highest}
use mpquic_sbd.Streams.Sorter
use mpquic_sbd.Streams.Sorter.{SortError}
use mpquic_sbd.Streams.Stream.{Stream}

abbrev pub is_none {ℓ} : {A : Type ℓ} → Option A → Bool
is_none none = true
is_none (some a) = false

-- How a call of Write starts: it is refused with the stream's error or on a closed stream, has nothing to
-- write, or leaves its data and waits.
pub data Written : Type 0 where
  refused : Option ℕ → Written
  closed nothing : Written
  started : Stream → Written

unfoldable pub write : Stream → List ℕ → Written
write s p =
    if s.reset_locally || not (is_none s.error)
    then refused s.error
    else if s.finished_writing
    then closed
    else if length p == 0
    then nothing
    else started (record s { data_for_writing = some p })

-- Whether the wait of Write for `n` bytes is over, and then how many were written, and the error.
unfoldable pub write_result : Bool → Stream → ℕ → Option (ℕ × Option ℕ × Bool)
write_result expired s n = elim s.error [
  | some e ↦ some (
      if expired then (0, none, true) else (
        n - elim s.data_for_writing as (λ _. ℕ) [ none ↦ 0 | some rest ↦ length rest ],
        some e,
        false,
      ))
  | none ↦
      if expired
      then some (0, none, true)
      else if is_none s.data_for_writing
      then some (n, none, false)
      else none
]

unfoldable pub len_of_data_for_writing : Stream → ℕ
len_of_data_for_writing s = elim s.error [
  | some e ↦ 0
  | none ↦ elim s.data_for_writing [ none ↦ 0 | some rest ↦ length rest ]
]

abbrev pub sent_data : Stream → List ℕ → Option (List ℕ) → Option (List ℕ) × Stream
sent_data s ret left = (
  some ret,
  record s { data_for_writing = left; write_offset = add_u64 s.write_offset (length ret) },
)

unfoldable pub get_data_for_writing : Stream → ℕ → Option (List ℕ) × Stream
get_data_for_writing s max_bytes = elim s.error [
  | some e ↦ (none, s)
  | none ↦ elim s.data_for_writing [
    | none ↦ (none, s)
    | some rest ↦
        if ltb max_bytes (length rest)
        then sent_data s (take max_bytes rest) (some (drop max_bytes rest))
        else sent_data s rest none
  ]
]

unfoldable pub close : Stream → Stream
close s = record s { finished_writing = true }

unfoldable pub finished_write_and_sent_fin : Stream → Bool
finished_write_and_sent_fin s = s.finished_writing && s.fin_sent

unfoldable pub should_send_reset : Stream → Bool
should_send_reset s =
    if s.rst_sent
    then false
    else (s.reset_locally || s.reset_remotely) && not (finished_write_and_sent_fin s)

unfoldable pub should_send_fin : Stream → Bool
should_send_fin s =
    s.finished_writing && (not s.fin_sent && (is_none s.error && is_none s.data_for_writing))

unfoldable pub sent_fin : Stream → Stream
sent_fin s = record s { fin_sent = true }

-- What AddStreamFrame returns: nothing, an error of the flow control or one of the sorter.
pub data Added : Type 0 where
  fine : Added
  flow_fails : FlowError → Added
  sort_fails : SortError → Added

pub record Arrival : Type 0 where
  pub after : Stream
  pub flow : Manager
  pub added : Added

-- A duplicate is no error.
abbrev pub added_by : Option SortError → Added
added_by none = fine
added_by (some Sorter.duplicate_stream_data) = fine
added_by (some e) = sort_fails e

unfoldable pub add_stream_frame : Stream → Manager → StreamFrame → Arrival
add_stream_frame s flow f =
    let accepted = update_highest flow s.stream_id (add_u64 f.offset (length f.content)) in
    let pushed = Sorter.push s.frame_queue f in
    elim accepted.error [
      | some e ↦ record { after = s; flow = accepted.manager; added = flow_fails e }
      | none ↦ record {
        after = record s { frame_queue = pushed.sorter };
        flow = accepted.manager;
        added = added_by pushed.error;
      }
    ]

unfoldable pub close_remote : Stream → Manager → ℕ → Arrival
close_remote s flow offset = add_stream_frame s flow record {
  stream_id = 0;
  fin_bit = true;
  data_len_present = false;
  offset = offset;
  loss_count = 0;
  path_id = 0;
  time_stamp = 0;
  content = [];
}

-- Errors must not be changed.
abbrev pub first_error : Option ℕ → ℕ → Option ℕ
first_error none e = some e
first_error (some old) e = some old

unfoldable pub cancel : Stream → ℕ → Stream
cancel s e = record s { cancelled = true; error = first_error s.error e }

-- A reset that is to be sent counts as sent.
unfoldable pub send_reset : Stream → Stream
send_reset s = if should_send_reset s then record s { rst_sent = true } else s

unfoldable pub reset : Stream → ℕ → Stream
reset s e =
    if s.reset_locally
    then s
    else send_reset (record s { reset_locally = true; error = first_error s.error e })

unfoldable pub register_remote_error : Stream → ℕ → Stream
register_remote_error s e =
    if s.reset_remotely
    then s
    else send_reset (record s { reset_remotely = true; error = first_error s.error e })

unfoldable pub finished : Stream → Bool
finished s =
    s.cancelled
    || ((s.finished_reading && finished_write_and_sent_fin s)
        || ((s.reset_remotely && s.rst_sent)
            || ((s.finished_reading && s.rst_sent)
                || (finished_write_and_sent_fin s && s.reset_remotely))))
