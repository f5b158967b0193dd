-- ===== src/AckHandler/History/Contents.antt =====
-- The history against the set of packet numbers that it stands for.
use mpquic_sbd.Base.{
  ℕ, ◌+◌, ◌-◌, ◌≤◌, ◌<◌, ◌≡◌, refl, ◌∙◌, Bool, true, false, ◌&&◌, ◌||◌, List, [], ◌∷◌, ok, arith,
  ltb, leb, ◌==◌,
}
use mpquic_sbd.AckHandler.History.{
  PacketInterval, History, insert_packet, merge_prev, received_packet, delete_step, delete_ranges,
  delete_up_to,
}
use mpquic_sbd.AckHandler.History.Invariant.{Ordered, packet_limit, IsValid, Ordered-mono}

abbrev pub covers : ℕ → List PacketInterval → Bool
covers x [] = false
covers x (el ∷ rest) = (leb el.start x && leb x el.end) || covers x rest

-- Is packet `x` recorded as received?
unfoldable pub contains : ℕ → History → Bool
contains x h = covers x h.ranges

pub covers_above :
    (x limit : ℕ) (l : List PacketInterval) → Ordered limit l → limit ≤ x → covers x l ≡ false
covers_above x limit [] o h = refl
covers_above x limit (el ∷ rest) o h = ground (arith, covers_above x (el.start - 1) rest)

covers-merge_prev :
    (x : ℕ) (el : PacketInterval) (rest : List PacketInterval)
    → el.start ≤ el.end
    → el.end < packet_limit
    → 0 < el.start
    → Ordered el.start rest
    → covers x (merge_prev el rest) ≡ ((leb el.start x && leb x el.end) || covers x rest)
unfolding merge_prev
covers-merge_prev x el [] h k z o = refl
covers-merge_prev x el (prev ∷ rest) h k z o = ground (arith)

covers_extended_end :
    (x p : ℕ) (el : PacketInterval) (rest : List PacketInterval)
    → p < packet_limit
    → el.end + 1 ≡ p
    → Ordered p (el ∷ rest)
    → covers x (merge_prev (record el { end = p }) rest) ≡ ((x == p) || covers x (el ∷ rest))
covers_extended_end x p el rest b e o =
    covers-merge_prev x (record el { end = p }) rest (omega arith) b o.2
      (Ordered-mono (el.start - 1) el.start rest (omega arith) o.3)
    ∙ ground arith

covers_extended_start :
    (x p : ℕ) (el : PacketInterval) (rest : List PacketInterval)
    → 0 < p
    → p + 1 ≡ el.start
    → Ordered packet_limit (el ∷ rest)
    → Ordered p rest
    → covers x (merge_prev (record el { start = p }) rest) ≡ ((x == p) || covers x (el ∷ rest))
covers_extended_start x p el rest z e o r =
    covers-merge_prev x (record el { start = p }) rest (omega arith) o.1 z r ∙ ground arith

pub covers-insert_packet :
    (x limit p : ℕ) (l : List PacketInterval)
    → limit ≤ packet_limit
    → 0 < p
    → p < limit
    → Ordered limit l
    → covers x (insert_packet p l) ≡ ((x == p) || covers x l)
unfolding insert_packet
covers-insert_packet x limit p [] b z h o = ground arith
covers-insert_packet x limit p (el ∷ rest) b z h o = ground (
  arith,
  covers_extended_end x p el rest,
  covers_extended_start x p el rest,
  Ordered-mono (el.start - 1) p rest,
  covers-insert_packet x (el.start - 1) p rest,
)

-- After a positive packet number below 2 ^ 63 is registered in a valid history, exactly it and the
-- numbers recorded before are recorded.
pub contains-received_packet :
    (h h' : History) (p x : ℕ)
    → 0 < p
    → p < packet_limit
    → IsValid h
    → received_packet h p ≡ ok h'
    → contains x h' ≡ ((x == p) || contains x h)
unfolding received_packet contains
contains-received_packet h h' p x z b v e =
    ground (arith, covers-insert_packet x packet_limit p h.ranges)

delete_step_stops :
    (p : ℕ) (el : PacketInterval) (r : List PacketInterval × Bool)
    → el.start ≤ el.end
    → (r.1 ≡ false → p < el.start - 1)
    → (delete_step p el r).1 ≡ false
    → p < el.end
unfolding delete_step
delete_step_stops p el (rest, true) k f e = ground arith
delete_step_stops p el (rest, false) k f e = omega (arith, f refl)

-- The loop stops early only at an interval that lies above `p`.
delete_ranges_stops :
    (limit p : ℕ) (l : List PacketInterval)
    → Ordered limit l
    → (delete_ranges p l).1 ≡ false
    → p < limit
unfolding delete_ranges
delete_ranges_stops limit p [] o e = cc
delete_ranges_stops limit p (el ∷ rest) o e = omega (
  arith,
  delete_step_stops p el (delete_ranges p rest) o.0 (delete_ranges_stops (el.start - 1) p rest o.3)
      e,
)

covers-delete_step :
    (x p : ℕ) (el : PacketInterval) (rest : List PacketInterval) (r : List PacketInterval × Bool)
    → el.start ≤ el.end
    → el.end < packet_limit
    → (r.1 ≡ false → p < el.start - 1)
    → covers x r.0 ≡ (ltb p x && covers x rest)
    → covers x (delete_step p el r).0 ≡ (ltb p x && covers x (el ∷ rest))
unfolding delete_step
covers-delete_step x p el rest (rest', true) k b f c = ground arith
covers-delete_step x p el rest (rest', false) k b f c = ground (arith, f refl)

pub covers-delete_ranges :
    (x limit p : ℕ) (l : List PacketInterval)
    → limit ≤ packet_limit
    → Ordered limit l
    → covers x (delete_ranges p l).0 ≡ (ltb p x && covers x l)
unfolding delete_ranges
covers-delete_ranges x limit p [] b o = ground arith
covers-delete_ranges x limit p (el ∷ rest) b o =
    covers-delete_step x p el rest (delete_ranges p rest) o.0 (omega arith)
      (delete_ranges_stops (el.start - 1) p rest o.3)
      (covers-delete_ranges x (el.start - 1) p rest (omega arith) o.3)

-- In a valid history `DeleteUpTo` forgets exactly the packet numbers up to and including its argument.
pub contains-delete_up_to :
    (h : History) (p x : ℕ) → IsValid h → contains x (delete_up_to h p) ≡ (ltb p x && contains x h)
unfolding delete_up_to contains
contains-delete_up_to h p x v = covers-delete_ranges x packet_limit p h.ranges (omega arith) v
