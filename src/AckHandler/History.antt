-- ===== src/AckHandler/History.antt =====
-- quic-go/ackhandler/received_packet_history.go: the packet numbers received, as intervals.
-- The linked list `ranges` is a list here, from `Back()` to `Front()`.
pub mod Invariant
pub mod Contents
pub mod Canonical
use mpquic_sbd.Base.{
  ℕ, ◌+◌, ◌^◌, Bool, true, false, ◌&&◌, ◌||◌, List, [], ◌∷◌, map, Result, ok, err, ltb, leb, ◌==◌,
  length, max, if◌then◌else◌,
}
use mpquic_sbd.Protocol.{sub_u64, add_u64}
use mpquic_sbd.Wire.Ack.{AckRange}

-- utils.PacketInterval
pub record PacketInterval : Type 0 where
  pub start : ℕ
  pub end : ℕ

pub record History : Type 0 where
  pub ranges : List PacketInterval
  pub lowest_in_received_packet_numbers : ℕ

pub data HistoryError : Type 0 where
  too_many_outstanding_received_ack_ranges : HistoryError

-- protocol.MaxTrackedReceivedAckRanges
abbrev pub max_tracked_received_ack_ranges : ℕ
max_tracked_received_ack_ranges = 2500

unfoldable pub new_received_packet_history : History
new_received_packet_history = record { ranges = []; lowest_in_received_packet_numbers = 0 }

-- What follows once `el` was extended: its predecessor may now touch it.
unfoldable pub merge_prev : PacketInterval → List PacketInterval → List PacketInterval
merge_prev el [] = el ∷ []
merge_prev el (prev ∷ rest) =
    if add_u64 prev.end 1 == el.start then record prev { end = el.end } ∷ rest else el ∷ prev ∷ rest

-- The loop of `ReceivedPacket`, from the back; at the end of the list the new range goes to the front.
unfoldable pub insert_packet : ℕ → List PacketInterval → List PacketInterval
insert_packet p [] = record { start = p; end = p } ∷ []
insert_packet p (el ∷ rest) =
    if leb el.start p && leb p el.end
    then el ∷ rest
    else if el.end == sub_u64 p 1
    then merge_prev (record el { end = p }) rest
    else if el.start == add_u64 p 1
    then merge_prev (record el { start = p }) rest
    else if ltb el.end p
    then record { start = p; end = p } ∷ el ∷ rest
    else el ∷ insert_packet p rest

unfoldable pub received_packet : History → ℕ → Result HistoryError History
received_packet h p =
    if leb max_tracked_received_ack_ranges (length h.ranges)
    then err too_many_outstanding_received_ack_ranges
    else ok (record h { ranges = insert_packet p h.ranges })

-- What one round of `DeleteUpTo` does to `el`, if the loop came as far; the flag says that it goes on.
unfoldable pub delete_step :
    ℕ → PacketInterval → List PacketInterval × Bool → List PacketInterval × Bool
delete_step p el (rest, more) =
    if more
    then (if leb el.start p && ltb p el.end
        then (record el { start = add_u64 p 1 } ∷ rest, true)
        else if leb el.end p
        then (rest, true)
        else (el ∷ rest, false))
    else (el ∷ rest, false)

-- The loop starts at the front, which is the end of the list.
unfoldable pub delete_ranges : ℕ → List PacketInterval → List PacketInterval × Bool
delete_ranges p [] = ([], true)
delete_ranges p (el ∷ rest) = delete_step p el (delete_ranges p rest)

unfoldable pub delete_up_to : History → ℕ → History
delete_up_to h p = record {
  ranges = (delete_ranges p h.ranges).0;
  lowest_in_received_packet_numbers = max h.lowest_in_received_packet_numbers (add_u64 p 1);
}

abbrev pub ack_range : PacketInterval → AckRange
ack_range el = record { first = el.start; last = el.end }

unfoldable pub get_ack_ranges : History → List AckRange
get_ack_ranges h = map ack_range h.ranges

unfoldable pub get_highest_ack_range : History → AckRange
get_highest_ack_range h = elim h.ranges [
  | [] ↦ record { first = 0; last = 0 }
  | r ∷ rest ↦ ack_range r
]
