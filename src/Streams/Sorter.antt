-- ===== src/Streams/Sorter.antt =====
-- quic-go/stream_frame_sorter.go: the frames of a stream, put in order. The map of frames is an
-- association list, the linked list of gaps a list from its front.
pub mod Gaps
pub mod Queue
pub mod Filled
pub mod Stored
pub mod Received
pub mod Delivery
use mpquic_sbd.Base.{
  ℕ, ◌+◌, ◌-◌, ◌^◌, min, max, Bool, true, false, not, ◌&&◌, ◌||◌, List, [], ◌∷◌, ◌++◌, Option, none,
  some, ltb, leb, ◌==◌, length, take, drop, if◌then◌else◌,
}
use mpquic_sbd.Protocol.{add_u64}
use mpquic_sbd.Wire.Stream.{StreamFrame}

-- utils.ByteInterval
pub record ByteInterval : Type 0 where
  pub start : ℕ
  pub end : ℕ

pub record Sorter : Type 0 where
  pub queued_frames : List (ℕ × StreamFrame)
  pub read_position : ℕ
  pub gaps : List ByteInterval

pub data SortError : Type 0 where
  too_many_gaps_in_received_stream_data duplicate_stream_data empty_stream_data : SortError
  no_gap_found no_end_gap_found : SortError

abbrev pub max_byte_count : ℕ
max_byte_count = 2 ^ 64 - 1

abbrev pub max_stream_frame_sorter_gaps : ℕ
max_stream_frame_sorter_gaps = 2500

unfoldable pub new_stream_frame_sorter : Sorter
new_stream_frame_sorter = record {
  queued_frames = [];
  read_position = 0;
  gaps = record { start = 0; end = max_byte_count } ∷ [];
}

-- The operations of the map.
unfoldable pub lookup : ℕ → List (ℕ × StreamFrame) → Option StreamFrame
lookup k [] = none
lookup k ((key, f) ∷ rest) = if k == key then some f else lookup k rest

unfoldable pub delete : ℕ → List (ℕ × StreamFrame) → List (ℕ × StreamFrame)
delete k [] = []
delete k ((key, f) ∷ rest) = if k == key then delete k rest else (key, f) ∷ delete k rest

abbrev pub put : StreamFrame → List (ℕ × StreamFrame) → List (ℕ × StreamFrame)
put f queued = (f.offset, f) ∷ delete f.offset queued

-- The frame without its first `n` bytes.
unfoldable pub skip_bytes : ℕ → StreamFrame → StreamFrame
skip_bytes n f = record f { offset = add_u64 f.offset n; content = drop n f.content }

abbrev pub keep_bytes : ℕ → StreamFrame → StreamFrame
keep_bytes n f = record f { content = take n f.content }

-- The gap at which the loop over the gaps stops, with those before and after it.
pub data Search : Type 0 where
  duplicate no_gap : Search
  found : List ByteInterval → ByteInterval → List ByteInterval → Search

abbrev pub after_gap : ByteInterval → Search → Search
after_gap g duplicate = duplicate
after_gap g no_gap = no_gap
after_gap g (found before gap after) = found (g ∷ before) gap after

unfoldable pub find_gap : ℕ → ℕ → List ByteInterval → Search
find_gap start end [] = no_gap
find_gap start end (g ∷ rest) =
    let later = find_gap start end rest in
    if leb end g.start
    then duplicate
    else if ltb g.start end && leb start g.end
    then found [] g rest
    else after_gap g later

-- Where the loop for the end gap stops. `same` says that it is the first gap still, `removed` that it is
-- not in the list any more, and `exhausted` that the frame reaches to the end of the last gap; `deleted`
-- are the keys of the frames that are covered completely.
pub record EndGap : Type 0 where
  pub end_gap : ByteInterval
  pub after : List ByteInterval
  pub same : Bool
  pub removed : Bool
  pub exhausted : Bool
  pub deleted : List ℕ

unfoldable pub find_end_gap : ℕ → ByteInterval → Bool → List ByteInterval → List ℕ → EndGap
find_end_gap end gap same [] deleted = record {
  end_gap = gap;
  after = [];
  same = same;
  removed = false;
  exhausted = leb gap.end end;
  deleted = deleted;
}
find_end_gap end gap same (next ∷ rest) deleted =
    let further = find_end_gap end next false rest (gap.end ∷ deleted) in
    let here : EndGap = record {
      end_gap = gap;
      after = next ∷ rest;
      same = same;
      removed = leb gap.end end && not same;
      exhausted = false;
      deleted = deleted;
    } in
    if leb gap.end end && not (leb end next.start) then further else here

-- The gaps from the first one on, when the bytes from `start` to `end` of them are filled.
abbrev pub end_gap_and_after : EndGap → List ByteInterval
end_gap_and_after e = if e.same || e.removed then e.after else e.end_gap ∷ e.after

unfoldable pub fill_gaps : ByteInterval → EndGap → ℕ → ℕ → List ByteInterval
fill_gaps gap e start end =
    let first = if leb gap.end end then [] else gap ∷ [] in
    let shrunk = record e.end_gap { start = end } ∷ e.after in
    if start == gap.start
    then (if ltb end e.end_gap.end
        then (if e.same then shrunk else first ++ shrunk)
        else first ++ end_gap_and_after e)
    else if end == e.end_gap.end
    then record gap { end = start } ∷ end_gap_and_after e
    else if e.same
    then record gap { end = start } ∷ record { start = end; end = gap.end } ∷ e.after
    else record gap { end = start } ∷ shrunk

unfoldable pub delete_all : List ℕ → List (ℕ × StreamFrame) → List (ℕ × StreamFrame)
delete_all [] queued = queued
delete_all (k ∷ rest) queued = delete_all rest (delete k queued)

-- A call keeps what it has changed when it fails.
pub record Outcome : Type 0 where
  pub sorter : Sorter
  pub error : Option SortError

abbrev pub fails_with : Sorter → SortError → Outcome
fails_with s e = record { sorter = s; error = some e }

-- Push from the point on where both gaps are found; `f` starts at the gap or in it.
unfoldable pub store : Sorter → StreamFrame → List ByteInterval → ByteInterval → EndGap → Outcome
store s f before gap e =
    let end = min (add_u64 f.offset (length f.content)) e.end_gap.end in
    let gaps = before ++ fill_gaps gap e f.offset end in
    let queued = delete_all e.deleted s.queued_frames in
    let filled = record s { queued_frames = queued; gaps = gaps } in
    if ltb max_stream_frame_sorter_gaps (length gaps)
    then fails_with filled too_many_gaps_in_received_stream_data
    else record {
      sorter = record filled { queued_frames = put (keep_bytes (end - f.offset) f) queued };
      error = none;
    }

-- Push from the point on where the first gap is found.
unfoldable pub push_at : Sorter → StreamFrame → Search → Outcome
push_at s f duplicate = fails_with s duplicate_stream_data
push_at s f no_gap = fails_with s no_gap_found
push_at s f (found before gap after) =
    let cut = if ltb f.offset gap.start then skip_bytes (gap.start - f.offset) f else f in
    let e = find_end_gap (add_u64 f.offset (length f.content)) gap true after [] in
    if e.exhausted
    then fails_with
        (record s {
          queued_frames = delete_all e.deleted s.queued_frames;
          gaps = before ++ (gap ∷ end_gap_and_after e);
        })
        no_end_gap_found
    else store s cut before gap e

-- Push of a frame with data, of which nothing is queued at its offset.
unfoldable pub push_new : Sorter → StreamFrame → Outcome
push_new s f = push_at s f (find_gap f.offset (add_u64 f.offset (length f.content)) s.gaps)

-- Push of a frame with data.
unfoldable pub push_data : Sorter → StreamFrame → Outcome
push_data s f = elim (lookup f.offset s.queued_frames) [
  | none ↦ push_new s f
  | some old ↦
      if leb (length f.content) (length old.content)
      then fails_with s duplicate_stream_data
      else push_new s (skip_bytes (length old.content) f)
]

unfoldable pub push : Sorter → StreamFrame → Outcome
push s f =
    if length f.content == 0
    then (if f.fin_bit
        then record { sorter = record s { queued_frames = put f s.queued_frames }; error = none }
        else fails_with s empty_stream_data)
    else push_data s f

unfoldable pub head : Sorter → Option StreamFrame
head s = lookup s.read_position s.queued_frames

unfoldable pub pop : Sorter → Option StreamFrame × Sorter
pop s = elim (head s) [
  | none ↦ (none, s)
  | some f ↦ (
    some f,
    record s {
      queued_frames = delete f.offset s.queued_frames;
      read_position = add_u64 s.read_position (length f.content);
    },
  )
]
