-- ===== src/AckHandler/Received/Reachable.antt =====
-- What holds in every state that the calls on a receiver reach, also after calls that fail.
use mpquic_sbd.Base.{ℕ, ◌<◌, ◌≡◌, refl, Bool, true, false, ◌||◌, Option, ok, arith}
use mpquic_sbd.Base.Int.{ℤ}
use mpquic_sbd.Wire.Ack.{AckFrame}
use mpquic_sbd.AckHandler.History.Invariant.{packet_limit}
use mpquic_sbd.AckHandler.Received.{
  Handler, received_packet, set_lower_limit, get_ack_frame, new_received_packet_handler,
}
use mpquic_sbd.AckHandler.Received.Acknowledges.{Inv}
use mpquic_sbd.AckHandler.Received.Tracking.{
  new_received_packet_handler-Inv, is_full, received_packet-Inv, set_lower_limit-Inv,
  get_ack_frame-Inv,
}
use mpquic_sbd.AckHandler.Received.Bounds.{
  Inv-IsBounded, IsBounded, received_packet-IsBounded, set_lower_limit-IsBounded,
  get_ack_frame-IsBounded,
}

-- The states, with whether a call of ReceivedPacket has failed for too many ranges. Such a call and one
-- that refuses the packet number zero are steps like the others. A new limit comes from a STOP_WAITING
-- frame of a packet received before, whose number is above it. GetAckFrame returns, with or without a
-- frame.
pub data Reach (version : ℤ) : Bool → Handler → Type 0 where
  starts : Reach version false (new_received_packet_handler version)
  receives :
      {failed : Bool} {h : Handler} (packet_number : ℕ) (should_instigate_ack : Bool) (now : ℕ)
      → Reach version failed h
      → packet_number < packet_limit
      → Reach version
          (failed || is_full (received_packet h packet_number should_instigate_ack now).error)
          (received_packet h packet_number should_instigate_ack now).after
  limits :
      {failed : Bool} {h : Handler} (p : ℕ)
      → Reach version failed h
      → p < h.largest_observed
      → Reach version failed (set_lower_limit h p)
  sends :
      {failed : Bool} {h h' : Handler} (groups epoch now : ℕ) (frame : Option AckFrame)
      → Reach version failed h
      → get_ack_frame h groups epoch now ≡ ok (frame, h')
      → Reach version failed h'

-- What a step needs of the state before it.
record Kept (failed : Bool) (h : Handler) : Type 0 where
  bounded : IsBounded h
  whole : failed ≡ false → Inv h

Reach-Kept : {version : ℤ} {failed : Bool} {h : Handler} → Reach version failed h → Kept failed h
Reach-Kept {version} starts =
    let v = new_received_packet_handler-Inv version in
    record { bounded = Inv-IsBounded _ v; whole = λ _. v }
Reach-Kept (receives {failed} {h} p i now r b) =
    let k = Reach-Kept r in
    record {
      bounded = received_packet-IsBounded h p i now k.bounded b;
      whole = λ e. received_packet-Inv h p i now (k.whole (ground arith)) b (ground arith);
    }
Reach-Kept (limits {failed} {h} p r b) =
    let k = Reach-Kept r in
    record {
      bounded = set_lower_limit-IsBounded h p k.bounded b;
      whole = λ e. set_lower_limit-Inv h p (k.whole e) b;
    }
Reach-Kept (sends {failed} {h} {h'} groups epoch now frame r e) =
    let k = Reach-Kept r in
    record {
      bounded = get_ack_frame-IsBounded h h' groups epoch now frame k.bounded e;
      whole = λ w. get_ack_frame-Inv h h' groups epoch now frame (k.whole w) e;
    }

-- The whole invariant until a call has failed, and its bounds from then on.
abbrev pub IsKept : Bool → Handler → Type 0
IsKept false h = Inv h
IsKept true h = IsBounded h

Kept-IsKept : (failed : Bool) (h : Handler) → Kept failed h → IsKept failed h
Kept-IsKept false h k = k.whole refl
Kept-IsKept true h k = k.bounded

-- Every state that calls on a new handler reach satisfies the invariant, until a call of ReceivedPacket
-- fails for too many ranges. From then on it keeps the bounds: the history is valid, nothing above the
-- largest observed packet is recorded, that packet is below 2 ^ 63, and the lower limit is zero or below
-- it. Packet numbers are below 2 ^ 63, and a new lower limit is below the largest observed packet.
pub Reach-IsKept :
    {version : ℤ} {failed : Bool} {h : Handler} → Reach version failed h → IsKept failed h
Reach-IsKept {version} {failed} {h} r = Kept-IsKept failed h (Reach-Kept r)
