-- ===== src/AckHandler/Sent/Acked.antt =====
-- Which packets `determineNewlyAckedPackets` finds: its index into the ranges against the frame.
use mpquic_sbd.Base.{
  ℕ, ◌+◌, ◌≤◌, ◌<◌, ◌≡◌, refl, sym, ◌∙◌, ap, subst, Bool, true, false, ◌&&◌, ◌||◌, List, [], ◌∷◌,
  ok, ltb, leb, if◌then◌else◌, arith, Bool-cases, inl, inr, ◌⊎◌,
}
use native.Mathlib.Nat.{le_refl}
use mpquic_sbd.Wire.Ack.{
  AckRange, AckFrame, acks_packet, in_some_range, each_range_valid, consistent_after,
  validate_ranges, validate_ack_ranges, last_first,
}
use mpquic_sbd.Wire.Ack.Acked.{NoWrap}
use mpquic_sbd.AckHandler.Packet.{Packet}
use mpquic_sbd.AckHandler.Sent.{
  advance, newly_acked_in_ranges, newly_acked, lowest_first, determine_newly_acked_packets,
}

-- The packet numbers of the history increase, from `lo` on.
abbrev pub Increasing : ℕ → List Packet → Type 0
Increasing lo [] = Unit {0}
Increasing lo (p ∷ rest) = (lo ≤ p.packet_number) × Increasing (p.packet_number + 1) rest

abbrev pub having : (ℕ → Bool) → List Packet → List Packet
having test [] = []
having test (p ∷ rest) = if test p.packet_number then p ∷ having test rest else having test rest

-- From the lowest range on: nonempty ranges, each above the one before it.
abbrev Ascending : ℕ → List AckRange → Type 0
Ascending lo [] = Unit {0}
Ascending lo (r ∷ rest) = (lo ≤ r.first) × (r.first ≤ r.last) × Ascending (r.last + 1) rest

abbrev top_last : AckRange → List AckRange → ℕ
top_last r [] = r.last
top_last r (s ∷ rest) = top_last s rest

Increasing-mono : (m n : ℕ) (l : List Packet) → m ≤ n → Increasing n l → Increasing m l
Increasing-mono m n [] h i = tt
Increasing-mono m n (p ∷ rest) h i = (omega arith, i.1)

Ascending-mono : (m n : ℕ) (l : List AckRange) → m ≤ n → Ascending n l → Ascending m l
Ascending-mono m n [] h a = tt
Ascending-mono m n (r ∷ rest) h a = (omega arith, a.1, a.2)

not_below : (p lo : ℕ) (l : List AckRange) → Ascending lo l → p < lo → in_some_range p l ≡ false
unfolding in_some_range
not_below p lo [] a h = refl
not_below p lo (r ∷ rest) a h = ground (arith, not_below p (r.last + 1) rest)

-- After the inner loop the range at the index is the one that may hold the packet.
record Advanced (p lo : ℕ) (cur : AckRange) (above : List AckRange) (at : AckRange × List AckRange)
    : Type 0 where
  ascending : Ascending lo (at.0 ∷ at.1)
  same_top : top_last at.0 at.1 ≡ top_last cur above
  reached : p ≤ at.0.last
  same_ranges : (q : ℕ) → p ≤ q → in_some_range q (cur ∷ above) ≡ in_some_range q (at.0 ∷ at.1)

advance-Advanced :
    (p lo : ℕ) (cur : AckRange) (above : List AckRange)
    → Ascending lo (cur ∷ above)
    → p ≤ top_last cur above
    → Advanced p lo cur above (advance p cur above)
unfolding advance in_some_range
advance-Advanced p lo cur [] a h = record {
  ascending = a;
  same_top = refl;
  reached = h;
  same_ranges = λ q k. refl;
}
advance-Advanced p lo cur (r ∷ rest) a h = elim (Bool-cases (ltb cur.last p)) [
  | inl e ↦
      let v = advance-Advanced p (cur.last + 1) r rest a.2 h in
      rw (advance, e)
        record {
          ascending =
              Ascending-mono lo (cur.last + 1) ((advance p r rest).0 ∷ (advance p r rest).1)
                (omega (arith, a.0, a.1)) v.ascending;
          same_top = v.same_top;
          reached = v.reached;
          same_ranges = λ q k. skip q k e ∙ v.same_ranges q k;
        }
  | inr e ↦
      rw (advance, e)
        record { ascending = a; same_top = refl; reached = ground arith; same_ranges = λ q k. refl }
]
  where
    skip :
        (q : ℕ)
        → p ≤ q
        → ltb cur.last p ≡ true
        → in_some_range q (cur ∷ r ∷ rest) ≡ in_some_range q (r ∷ rest)
    skip q k e = ground arith

having-cong :
    (f g : ℕ → Bool) (lo : ℕ) (l : List Packet)
    → Increasing lo l
    → ((q : ℕ) → lo ≤ q → f q ≡ g q)
    → having f l ≡ having g l
having-cong f g lo [] i e = refl
having-cong f g lo (p ∷ rest) i e =
    rw
      (
        e p.packet_number i.0,
        having-cong f g (p.packet_number + 1) rest i.1 (λ q k. e q (omega (arith, i.0, k))),
      )
      refl

having-none :
    (f : ℕ → Bool) (lo : ℕ) (l : List Packet)
    → Increasing lo l
    → ((q : ℕ) → lo ≤ q → f q ≡ false)
    → having f l ≡ []
having-none f lo [] i e = refl
having-none f lo (p ∷ rest) i e =
    rw (e p.packet_number i.0)
      (having-none f (p.packet_number + 1) rest i.1 (λ q k. e q (omega (arith, i.0, k))))

abbrev within : ℕ → ℕ → List AckRange → ℕ → Bool
within lowest largest ranges q = leb lowest q && (leb q largest && in_some_range q ranges)

newly_acked_in_ranges-having :
    (lowest largest lo : ℕ) (cur : AckRange) (above : List AckRange) (l : List Packet)
    → Ascending lowest (cur ∷ above)
    → top_last cur above ≡ largest
    → Increasing lo l
    → newly_acked_in_ranges lowest largest (cur, above) l
      ≡ ok (having (within lowest largest (cur ∷ above)) l)
unfolding newly_acked_in_ranges
newly_acked_in_ranges-having lowest largest lo cur above [] a t i = refl
newly_acked_in_ranges-having lowest largest lo cur above (p ∷ rest) a t i =
    elim (Bool-cases (ltb largest p.packet_number)) [
      | inl e ↦ ground (
        arith,
        newly_acked_in_ranges-having lowest largest (p.packet_number + 1) cur above rest a t i.1,
        having-none (within lowest largest (cur ∷ above)) (p.packet_number + 1) rest i.1 (beyond e),
      )
      | inr e ↦
          let at = advance p.packet_number cur above in
          let v = advance-Advanced p.packet_number lowest cur above a (ground arith) in
          let member = v.same_ranges p.packet_number (le_refl p.packet_number) in
          ground (
            arith,
            v.reached,
            newly_acked_in_ranges-having lowest largest (p.packet_number + 1) cur above rest a t
                i.1,
            newly_acked_in_ranges-having lowest largest (p.packet_number + 1) at.0 at.1 rest
                v.ascending (v.same_top ∙ t) i.1,
            having-cong (within lowest largest (cur ∷ above)) (within lowest largest (at.0 ∷ at.1))
                (p.packet_number + 1) rest i.1 (same v),
            holds p.packet_number at member v.reached v.ascending.2,
          )
    ]
  where
    beyond :
        ltb largest p.packet_number ≡ true
        → (q : ℕ) → p.packet_number + 1 ≤ q
        → within lowest largest (cur ∷ above) q ≡ false
    beyond e q k = ground arith

    same :
        {at : AckRange × List AckRange}
        → Advanced p.packet_number lowest cur above at
        → (q : ℕ) → p.packet_number + 1 ≤ q
        → within lowest largest (cur ∷ above) q ≡ within lowest largest (at.0 ∷ at.1) q
    same v q k = ground (arith, v.same_ranges q (omega (arith, k)))

    holds :
        (q : ℕ) (at : AckRange × List AckRange)
        → in_some_range q (cur ∷ above) ≡ in_some_range q (at.0 ∷ at.1)
        → q ≤ at.0.last
        → Ascending (at.0.last + 1) at.1
        → in_some_range q (cur ∷ above) ≡ leb at.0.first q
    holds q at m r b =
        m ∙ (unfold in_some_range in ground (arith, not_below q (at.0.last + 1) at.1 b))

newly_acked-having :
    (lowest largest lo : ℕ) (l : List Packet)
    → Increasing lo l
    → newly_acked lowest largest l ≡ having (λ q. leb lowest q && leb q largest) l
unfolding newly_acked
newly_acked-having lowest largest lo [] i = refl
newly_acked-having lowest largest lo (p ∷ rest) i =
    ground (arith, newly_acked-having lowest largest (p.packet_number + 1) rest i.1, beyond)
  where
    test : ℕ → Bool
    test q = leb lowest q && leb q largest

    beyond : ltb largest p.packet_number ≡ true → having test rest ≡ []
    beyond e = having-none test (p.packet_number + 1) rest i.1 (λ q k. ground arith)

-- The ranges of a frame, lowest first.
record Turned (prev : AckRange) (l out : List AckRange) : Type 0 where
  lowest : AckRange
  above : List AckRange
  turned : lowest_first (prev ∷ l) out ≡ lowest ∷ above
  ascending : Ascending (last_first (prev ∷ l)) (lowest ∷ above)
  top : top_last lowest above ≡ top_last prev out
  same_ranges :
      (q : ℕ)
      → in_some_range q (lowest ∷ above) ≡ (in_some_range q (prev ∷ l) || in_some_range q out)

lowest_first-Turned :
    (prev : AckRange) (l out : List AckRange)
    → NoWrap (prev ∷ l)
    → each_range_valid (prev ∷ l) ≡ true
    → consistent_after prev l ≡ true
    → Ascending (prev.last + 1) out
    → Turned prev l out
unfolding each_range_valid consistent_after last_first in_some_range
lowest_first-Turned prev [] out b e c a = record {
  lowest = prev;
  above = out;
  turned = refl;
  ascending = (omega arith, ground arith, a);
  top = refl;
  same_ranges = λ q. ground arith;
}
lowest_first-Turned prev (r ∷ rest) out b e c a =
    let t =
      lowest_first-Turned r rest (prev ∷ out) b.1 (ground arith) (ground arith)
        (ground arith, ground arith, a) in
    record {
      lowest = t.lowest;
      above = t.above;
      turned = t.turned;
      ascending = t.ascending;
      top = t.top;
      same_ranges = λ q. ground (arith, t.same_ranges q);
    }

determine-in_ranges :
    (lowest largest : ℕ) (r s : AckRange) (rest : List AckRange) (history : List Packet)
    → NoWrap (r ∷ s ∷ rest)
    → validate_ranges largest (r ∷ s ∷ rest) ≡ true
    → lowest ≡ last_first (r ∷ s ∷ rest)
    → Increasing 0 history
    → determine_newly_acked_packets lowest largest (r ∷ s ∷ rest) history
      ≡ ok (having (within lowest largest (r ∷ s ∷ rest)) history)
unfolding validate_ranges determine_newly_acked_packets
determine-in_ranges lowest largest r s rest history b v l i =
    let t = lowest_first-Turned r (s ∷ rest) [] b (ground arith) (ground arith) tt in
    let asc = subst (λ n. Ascending n (t.lowest ∷ t.above)) (sym l) t.ascending in
    let top : top_last t.lowest t.above ≡ largest = t.top ∙ ground arith in
    rw (t.turned) (
      newly_acked_in_ranges-having lowest largest 0 t.lowest t.above history asc top i
      ∙ ap ok (having-cong _ _ 0 history i (same t)))
  where
    same :
        (t : Turned r (s ∷ rest) []) (q : ℕ)
        → 0 ≤ q
        → within lowest largest (t.lowest ∷ t.above) q ≡ within lowest largest (r ∷ s ∷ rest) q
    same t q k = unfold in_some_range in ground (arith, t.same_ranges q)

acks_packet-within :
    (f : AckFrame) (r : AckRange) (rest : List AckRange) (q : ℕ)
    → f.ack_ranges ≡ r ∷ rest
    → within f.lowest_acked f.largest_acked (r ∷ rest) q ≡ acks_packet f q
unfolding acks_packet
acks_packet-within f r rest q e = rw e (ground (arith, e))

determine-ranges :
    (f : AckFrame) (ranges : List AckRange) (history : List Packet)
    → f.ack_ranges ≡ ranges
    → NoWrap ranges
    → validate_ranges f.largest_acked ranges ≡ true
    → ((ranges ≡ []) ⊎ (f.lowest_acked ≡ last_first ranges))
    → Increasing 0 history
    → determine_newly_acked_packets f.lowest_acked f.largest_acked ranges history
      ≡ ok (having (acks_packet f) history)
unfolding determine_newly_acked_packets acks_packet validate_ranges
determine-ranges f [] history e b v l i = ap ok (
    newly_acked-having f.lowest_acked f.largest_acked 0 history i
    ∙ having-cong _ _ 0 history i (λ q k. ground (arith, e)))
determine-ranges f (r ∷ []) history e b v l i = absurd (ground arith)
determine-ranges f (r ∷ s ∷ rest) history e b v l i =
    determine-in_ranges f.lowest_acked f.largest_acked r s rest history b v (ground arith) i
    ∙ ap ok (having-cong _ _ 0 history i (λ q k. acks_packet-within f r (s ∷ rest) q e))

-- For a frame that validateAckRanges accepts, whose numbers do not wrap, and whose LowestAcked is that of
-- its last range if it has ranges, determineNewlyAckedPackets finds in a history of increasing packet
-- numbers exactly the packets that the frame acknowledges, in their order, and reports no bug.
pub determine_newly_acked_packets-having :
    (f : AckFrame) (history : List Packet)
    → NoWrap f.ack_ranges
    → validate_ack_ranges f ≡ true
    → ((f.ack_ranges ≡ []) ⊎ (f.lowest_acked ≡ last_first f.ack_ranges))
    → Increasing 0 history
    → determine_newly_acked_packets f.lowest_acked f.largest_acked f.ack_ranges history
      ≡ ok (having (acks_packet f) history)
unfolding validate_ack_ranges
determine_newly_acked_packets-having f history b v l i =
    determine-ranges f f.ack_ranges history refl b v l i
