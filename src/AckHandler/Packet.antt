-- ===== src/AckHandler/Packet.antt =====
-- quic-go/ackhandler/packet.go, retransmittable.go and stop_waiting_manager.go: sent packets, which of
-- their frames are sent again, and what a STOP_WAITING frame tells the peer.
pub mod StopWaiting
use mpquic_sbd.Base.{ℕ, ◌+◌, Bool, true, false, ◌||◌, List, [], ◌∷◌, ◌==◌, if◌then◌else◌}

-- The Go types of the frames. Nothing here reads what a frame holds: `content` says which frame it is.
pub data FrameType : Type 0 where
  stream rst_stream window_update blocked ping goaway add_address paths : FrameType
  ack stop_waiting close_path connection_close : FrameType

pub record Frame : Type 0 where
  pub frame_type : FrameType
  pub content : ℕ

pub record Packet : Type 0 where
  pub packet_number : ℕ
  pub frames : List Frame
  pub length : ℕ
  pub encryption_level : ℕ
  pub send_time : ℕ

unfoldable pub is_frame_retransmittable : Frame → Bool
is_frame_retransmittable f = elim f.frame_type [ stop_waiting ↦ false | ack ↦ false | _ ↦ true ]

unfoldable pub strip_non_retransmittable_frames : List Frame → List Frame
strip_non_retransmittable_frames [] = []
strip_non_retransmittable_frames (f ∷ rest) =
    if is_frame_retransmittable f
    then f ∷ strip_non_retransmittable_frames rest
    else strip_non_retransmittable_frames rest

unfoldable pub has_retransmittable_frames : List Frame → Bool
has_retransmittable_frames [] = false
has_retransmittable_frames (f ∷ rest) =
    if is_frame_retransmittable f then true else has_retransmittable_frames rest

-- `GetFramesForRetransmission`
unfoldable pub get_frames_for_retransmission : List Frame → List Frame
get_frames_for_retransmission [] = []
get_frames_for_retransmission (f ∷ rest) = elim f.frame_type [
  | ack ↦ get_frames_for_retransmission rest
  | stop_waiting ↦ get_frames_for_retransmission rest
  | _ ↦ f ∷ get_frames_for_retransmission rest
]

-- The type switch of `IsRetransmittable`.
abbrev pub counts_as_retransmittable : FrameType → Bool
counts_as_retransmittable close_path = false
counts_as_retransmittable connection_close = false
counts_as_retransmittable ack = false
counts_as_retransmittable stop_waiting = false
counts_as_retransmittable other = true

unfoldable pub any_retransmittable : List Frame → Bool
any_retransmittable [] = false
any_retransmittable (f ∷ rest) =
    if counts_as_retransmittable f.frame_type then true else any_retransmittable rest

abbrev pub is_retransmittable : Packet → Bool
is_retransmittable p = any_retransmittable p.frames
