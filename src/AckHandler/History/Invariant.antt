-- ===== src/AckHandler/History/Invariant.antt =====
-- The intervals stay ordered, disjoint and never adjacent.
use mpquic_sbd.Base.{ℕ, ◌-◌, ◌^◌, ◌≤◌, ◌<◌, ◌≡◌, Bool, List, [], ◌∷◌, ok, arith}
use mpquic_sbd.AckHandler.History.{
  PacketInterval, History, insert_packet, merge_prev, received_packet, delete_step, delete_ranges,
  delete_up_to,
}

-- From the back: each interval is nonempty and lies below `limit`, with a packet missing in between.
abbrev pub Ordered : ℕ → List PacketInterval → Type 0
Ordered limit [] = Unit {0}
Ordered limit (el ∷ rest) =
    (el.start ≤ el.end) × (el.end < limit) × (0 < el.start) × Ordered (el.start - 1) rest

abbrev pub packet_limit : ℕ
packet_limit = 2 ^ 63

abbrev pub IsValid : History → Type 0
IsValid h = Ordered packet_limit h.ranges

pub Ordered-mono : (m n : ℕ) (l : List PacketInterval) → m ≤ n → Ordered m l → Ordered n l
Ordered-mono m n [] h o = tt
Ordered-mono m n (el ∷ rest) h o = (o.0, omega arith, o.2, o.3)

merge_prev-Ordered :
    (limit : ℕ) (el : PacketInterval) (rest : List PacketInterval)
    → limit ≤ packet_limit
    → el.start ≤ el.end
    → el.end < limit
    → 0 < el.start
    → Ordered el.start rest
    → Ordered limit (merge_prev el rest)
unfolding merge_prev
merge_prev-Ordered limit el [] b h k z o = (h, k, z, tt)
merge_prev-Ordered limit el (prev ∷ rest) b h k z o = ground arith

pub insert_packet-Ordered :
    (limit p : ℕ) (l : List PacketInterval)
    → limit ≤ packet_limit
    → 0 < p
    → p < limit
    → Ordered limit l
    → Ordered limit (insert_packet p l)
unfolding insert_packet
insert_packet-Ordered limit p [] b z h o = (omega arith, h, z, tt)
insert_packet-Ordered limit p (el ∷ rest) b z h o = ground (
  arith,
  merge_prev-Ordered limit (record el { end = p }) rest,
  merge_prev-Ordered limit (record el { start = p }) rest,
  Ordered-mono (el.start - 1) el.start rest,
  insert_packet-Ordered (el.start - 1) p rest,
)

-- Registering a positive packet number below 2 ^ 63 keeps the intervals of a valid history nonempty,
-- ordered, disjoint and not adjacent.
pub received_packet-IsValid :
    (h h' : History) (p : ℕ)
    → 0 < p
    → p < packet_limit
    → IsValid h
    → received_packet h p ≡ ok h'
    → IsValid h'
unfolding received_packet
received_packet-IsValid h h' p z b v e =
    ground (arith, insert_packet-Ordered packet_limit p h.ranges)

delete_step-Ordered :
    (limit p : ℕ) (el : PacketInterval) (r : List PacketInterval × Bool)
    → limit ≤ packet_limit
    → el.start ≤ el.end
    → el.end < limit
    → 0 < el.start
    → Ordered (el.start - 1) r.0
    → Ordered limit (delete_step p el r).0
unfolding delete_step
delete_step-Ordered limit p el (rest, more) b h k z o =
    ground (arith, Ordered-mono (el.start - 1) p rest, Ordered-mono (el.start - 1) limit rest)

pub delete_ranges-Ordered :
    (limit p : ℕ) (l : List PacketInterval)
    → limit ≤ packet_limit
    → Ordered limit l
    → Ordered limit (delete_ranges p l).0
unfolding delete_ranges
delete_ranges-Ordered limit p [] b o = tt
delete_ranges-Ordered limit p (el ∷ rest) b o =
    delete_step-Ordered limit p el (delete_ranges p rest) b o.0 o.1 o.2
      (delete_ranges-Ordered (el.start - 1) p rest (omega arith) o.3)

-- Forgetting all packets up to a number keeps the intervals of a valid history nonempty, ordered,
-- disjoint and not adjacent.
pub delete_up_to-IsValid : (h : History) (p : ℕ) → IsValid h → IsValid (delete_up_to h p)
unfolding delete_up_to
delete_up_to-IsValid h p v = delete_ranges-Ordered packet_limit p h.ranges (omega arith) v
