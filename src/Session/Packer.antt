-- ===== src/Session/Packer.antt =====
-- quic-go/packet_packer.go: the frames that a packet is composed of.
pub mod Fits
use mathlib.Core.Option
use mpquic_sbd.Base.{
  ℕ, ◌+◌, ◌-◌, ◌^◌, ◌%◌, Bool, true, false, not, ◌&&◌, List, [], ◌∷◌, ◌++◌, Option, none, some,
  Result, ok, err, ltb, leb, ◌==◌, length, map, if◌then◌else◌,
}
use mpquic_sbd.Protocol.{sub_u64}
use mpquic_sbd.Wire.Stream.{StreamFrame, stream_min_length}
use mpquic_sbd.Wire.Bytes.{WireError}
use mpquic_sbd.Wire.Ack.{AckFrame}
use mpquic_sbd.Wire.Control.{BlockedFrame, StopWaitingFrame}
use mpquic_sbd.Session.Frames.{
  ControlFrame, blocked_frame, stop_waiting_frame, ack_frame, min_length,
}
use mpquic_sbd.Flow.Controller.{ConnectionParameters}
use mpquic_sbd.Flow.Manager.{Manager}
use mpquic_sbd.Streams.Open.{StreamsMap}
use mpquic_sbd.Streams.Stream.{Stream}
use mpquic_sbd.Streams.Framer.{Framer, pointers}
use mpquic_sbd.Streams.Framer.Normal.{Popped, pop_stream_frames}

-- What the packer reads and writes of a path.
pub record PackedPath : Type 0 where
  pub path_id : ℕ
  pub last_sent_loss_count : ℕ

-- The last STREAM frame takes the rest of the packet.
unfoldable pub omit_last_data_len : List StreamFrame → List StreamFrame
omit_last_data_len [] = []
omit_last_data_len (f ∷ []) = record f { data_len_present = false } ∷ []
omit_last_data_len (f ∷ g ∷ rest) = f ∷ omit_last_data_len (g ∷ rest)

-- The loop that notes the time in each frame, and the losses in the first one that has none.
unfoldable pub stamp : ℕ → ℕ → Bool → PackedPath → List StreamFrame → List StreamFrame × PackedPath
stamp now lost only_one pth [] = ([], pth)
stamp now lost only_one pth (f ∷ rest) =
    let timed : StreamFrame = record f { time_stamp = now } in
    let counted : StreamFrame = record timed {
      loss_count = sub_u64 lost pth.last_sent_loss_count % 256;
      path_id = pth.path_id;
    } in
    let first = stamp now lost true (record pth { last_sent_loss_count = lost }) rest in
    let later = stamp now lost only_one pth rest in
    if f.loss_count == 0 && not only_one
    then (counted ∷ first.0, first.1)
    else (timed ∷ later.0, later.1)

-- The last control frame of the slice comes first, since the packer takes them from the end.
pub record Packer : Type 0 where
  pub control_frames : List ControlFrame
  pub stop_waiting : ℕ → Option StopWaitingFrame
  pub ack_frame : ℕ → Option AckFrame

pub data PayloadFrame : Type 0 where
  control : ControlFrame → PayloadFrame
  stream : StreamFrame → PayloadFrame

abbrev pub with_frame : {A : Type 0} → (ℕ → Option A) → ℕ → A → ℕ → Option A
with_frame frames id f other = if other == id then some f else frames other

-- The frame on the path of the number `id`.
unfoldable pub queue_control_frame : Packer → ControlFrame → ℕ → Packer
queue_control_frame p (stop_waiting_frame f) id = record p {
  stop_waiting = with_frame p.stop_waiting id f;
}
queue_control_frame p (ack_frame f) id = record p { ack_frame = with_frame p.ack_frame id f }
queue_control_frame p f id = record p { control_frames = f ∷ p.control_frames }

-- The frames so far, and the sum of their MinLength.
pub record Payload : Type 0 where
  pub frames : List PayloadFrame
  pub len : ℕ

unfoldable pub add_frame : Option ControlFrame → Payload → Result WireError Payload
add_frame none p = ok p
add_frame (some f) p = elim (min_length f) [
  | err e ↦ err e
  | ok n ↦ ok record { frames = p.frames ++ (control f ∷ []); len = p.len + n }
]

-- The control frames that fit, and those that are left, also where one of them fails.
unfoldable pub add_control_frames :
    ℕ
    → List ControlFrame
    → Payload
    → Result (WireError × List ControlFrame) (Payload × List ControlFrame)
add_control_frames max_size [] p = ok (p, [])
add_control_frames max_size (f ∷ rest) p = elim (min_length f) [
  | err e ↦ err (e, f ∷ rest)
  | ok n ↦
      let later =
        add_control_frames max_size rest
          record { frames = p.frames ++ (control f ∷ []); len = p.len + n } in
      if ltb max_size (p.len + n) then ok (p, f ∷ rest) else later
]

-- An error, with the packer that the call leaves.
pub data PackError : Type 0 where
  frame_fails : WireError → Packer → PackError
  payload_too_large : ℕ → ℕ → Packer → PackError

-- A composed packet, with all that the call changes.
pub record Composed (params : ConnectionParameters) : Type 0 where
  pub frames : List PayloadFrame
  pub packer : Packer
  pub pth : PackedPath
  pub popped : Option (Popped params)

abbrev pub blocked_frames : List BlockedFrame → List ControlFrame → List ControlFrame
blocked_frames [] frames = frames
blocked_frames (b ∷ rest) frames = blocked_frames rest (blocked_frame b ∷ frames)

module _ (params : ConnectionParameters) where
  -- The STREAM frames after the payload; the BLOCKED frames are queued.
  unfoldable pub add_stream_frames :
      ℕ → ℕ → PackedPath → Packer → Payload → Popped params → Composed params
  add_stream_frames now lost pth packer p fs =
      let stamped = stamp now lost false pth (omit_last_data_len fs.frames) in
      record {
        frames = p.frames ++ map stream stamped.0;
        packer = record packer {
          control_frames = blocked_frames fs.framer.blocked_frame_queue packer.control_frames;
        };
        pth = stamped.1;
        popped = some (record fs { framer = record fs.framer { blocked_frame_queue = [] } });
      }

  -- composeNextPacket after the control frames, of which `left` are left.
  abbrev pub finish_packet :
      ℕ
      → Bool
      → ℕ
      → ℕ
      → PackedPath
      → Packer
      → Framer
      → StreamsMap pointers
      → Manager
      → (ℕ → Option Stream)
      → Payload
      → List ControlFrame
      → Result PackError (Composed params)
  finish_packet max_size can_send now lost pth packer framer m flow streams p left =
      let after : Packer = record packer { control_frames = left } in
      if ltb max_size p.len
      then err (payload_too_large p.len max_size after)
      else if not can_send
      then ok record { frames = p.frames; packer = after; pth = pth; popped = none }
      else ok (
          add_stream_frames now lost pth after p
            (pop_stream_frames params framer m flow streams (max_size + 2 - p.len)))

  unfoldable pub compose_next_packet :
      ℕ
      → Bool
      → ℕ
      → ℕ
      → PackedPath
      → Packer
      → Framer
      → StreamsMap pointers
      → Manager
      → (ℕ → Option Stream)
      → Result PackError (Composed params)
  compose_next_packet max_size can_send now lost pth packer framer m flow streams =
      elim (add_frame (Option.map stop_waiting_frame (packer.stop_waiting pth.path_id))
        record { frames = []; len = 0 }) [
          | err e ↦ err (frame_fails e packer)
          | ok stopped ↦
              elim (add_frame (Option.map ack_frame (packer.ack_frame pth.path_id)) stopped) [
                | err e ↦ err (frame_fails e packer)
                | ok acked ↦ elim (add_control_frames max_size packer.control_frames acked) [
                  | err (e, left) ↦ err (frame_fails e (record packer { control_frames = left }))
                  | ok (p, left) ↦
                      finish_packet max_size can_send now lost pth packer framer m flow streams p
                        left
                ]
              ]
        ]
