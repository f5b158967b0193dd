-- ===== src/Wire/Ack/Acked.antt =====
-- The shortcuts of `AcksPacket` against the ranges.
use mpquic_sbd.Base.{ℕ, ◌+◌, ◌^◌, ◌≤◌, ◌<◌, ◌≡◌, true, List, [], ◌∷◌, arith, All}
use mpquic_sbd.Wire.Ack.{
  AckRange, AckFrame, each_range_valid, consistent_after, validate_ranges, validate_ack_ranges,
  in_some_range, acks_packet, has_missing_ranges, last_first,
}

-- The packet numbers of the ranges are not the highest of the type, so that `Last+1` does not wrap.
abbrev pub NoWrap : List AckRange → Type 0
NoWrap l = All (λ r. r.last + 1 < 2 ^ 64) l

last_first-le :
    (prev : AckRange) (l : List AckRange)
    → consistent_after prev l ≡ true
    → last_first (prev ∷ l) ≤ prev.first
unfolding consistent_after last_first
last_first-le prev [] c = omega arith
last_first-le prev (r ∷ rest) c = ground (arith, last_first-le r rest)

-- Every packet of the ranges lies between the last one's first packet and the first one's last.
in_some_range_bounds :
    (p : ℕ) (prev : AckRange) (l : List AckRange)
    → NoWrap (prev ∷ l)
    → each_range_valid (prev ∷ l) ≡ true
    → consistent_after prev l ≡ true
    → in_some_range p (prev ∷ l) ≡ true
    → (last_first (prev ∷ l) ≤ p) × (p ≤ prev.last)
unfolding each_range_valid consistent_after in_some_range last_first
in_some_range_bounds p prev [] b e c h = ground arith
in_some_range_bounds p prev (r ∷ rest) b e c h =
    ground (arith, last_first-le r rest, in_some_range_bounds p r rest b.1)

valid_bounds :
    (largest p : ℕ) (l : List AckRange)
    → NoWrap l
    → validate_ranges largest l ≡ true
    → in_some_range p l ≡ true
    → (last_first l ≤ p) × (p ≤ largest)
unfolding validate_ranges
valid_bounds largest p [] b v h = absurd (unfold in_some_range in ground arith)
valid_bounds largest p (r ∷ []) b v h = absurd (ground arith)
valid_bounds largest p (r ∷ s ∷ rest) b v h = ground (arith, in_some_range_bounds p r (s ∷ rest) b)

-- In a frame with missing ranges, which validateAckRanges accepts, whose numbers do not wrap and whose
-- LowestAcked is that of the last range, the shortcut of
-- AcksPacket changes nothing: a packet is acknowledged exactly if a range holds it.
pub acks_packet-in_some_range :
    (f : AckFrame) (p : ℕ)
    → NoWrap f.ack_ranges
    → has_missing_ranges f ≡ true
    → validate_ack_ranges f ≡ true
    → f.lowest_acked ≡ last_first f.ack_ranges
    → acks_packet f p ≡ in_some_range p f.ack_ranges
unfolding acks_packet validate_ack_ranges
acks_packet-in_some_range f p b m v l =
    ground (arith, valid_bounds f.largest_acked p f.ack_ranges b v)
