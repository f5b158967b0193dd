-- ===== src/AckHandler/Received/Acknowledges.antt =====
-- The ACK frames that the handler makes acknowledge exactly the packets it has recorded.
use mpquic_sbd.Base.{
  ℕ, ◌-◌, ◌≤◌, ◌<◌, ◌≡◌, refl, ap, ◌∙◌, ◌⊎◌, inl, inr, true, false, not, ◌&&◌, ◌||◌, List, [], ◌∷◌,
  map, none, some, ok, leb, ◌==◌, length, arith, Bool-cases,
}
use mpquic_sbd.Wire.Ack.{
  AckRange, AckFrame, last_first, each_range_valid, consistent_after, validate_ranges,
  validate_ack_ranges, in_some_range, acks_packet,
}
use mpquic_sbd.Wire.Ack.Acked.{NoWrap, acks_packet-in_some_range}
use mpquic_sbd.AckHandler.History.{PacketInterval, get_ack_ranges, ack_range}
use mpquic_sbd.AckHandler.History.Invariant.{Ordered, IsValid, packet_limit}
use mpquic_sbd.AckHandler.History.Contents.{covers, contains, covers_above}
use mpquic_sbd.AckHandler.Received.{
  Handler, get_ack_frame, ack_frame, acknowledged, several, alarm_passed,
}

abbrev ranges_of : List PacketInterval → List AckRange
ranges_of l = map ack_range l

in_some_range-ranges_of :
    (x : ℕ) (l : List PacketInterval) → in_some_range x (ranges_of l) ≡ covers x l
unfolding in_some_range
in_some_range-ranges_of x [] = refl
in_some_range-ranges_of x (el ∷ rest) =
    ap (◌||◌ (leb el.start x && leb x el.end)) (in_some_range-ranges_of x rest)

ranges_of-NoWrap :
    (limit : ℕ) (l : List PacketInterval)
    → limit ≤ packet_limit
    → Ordered limit l
    → NoWrap (ranges_of l)
ranges_of-NoWrap limit [] h o = tt
ranges_of-NoWrap limit (el ∷ rest) h o =
    (omega arith, ranges_of-NoWrap (el.start - 1) rest (omega arith) o.3)

each_range_valid-ranges_of :
    (limit : ℕ) (l : List PacketInterval) → Ordered limit l → each_range_valid (ranges_of l) ≡ true
unfolding each_range_valid
each_range_valid-ranges_of limit [] o = refl
each_range_valid-ranges_of limit (el ∷ rest) o =
    ground (arith, each_range_valid-ranges_of (el.start - 1) rest o.3)

consistent_after-ranges_of :
    (limit : ℕ) (el : PacketInterval) (rest : List PacketInterval)
    → limit ≤ packet_limit
    → Ordered limit (el ∷ rest)
    → consistent_after (ack_range el) (ranges_of rest) ≡ true
unfolding consistent_after
consistent_after-ranges_of limit el [] b o = refl
consistent_after-ranges_of limit el (next ∷ rest) b o =
    ground (arith, consistent_after-ranges_of (el.start - 1) next rest)

-- The history's ranges pass the receiver's checks.
validate_ranges-ranges_of :
    (limit : ℕ) (el next : PacketInterval) (rest : List PacketInterval)
    → limit ≤ packet_limit
    → Ordered limit (el ∷ next ∷ rest)
    → validate_ranges el.end (ranges_of (el ∷ next ∷ rest)) ≡ true
unfolding validate_ranges
validate_ranges-ranges_of limit el next rest b o = ground (
  arith,
  each_range_valid-ranges_of limit (el ∷ next ∷ rest) o,
  consistent_after-ranges_of limit el (next ∷ rest) b o,
)

-- Between the calls: the history is ordered, nothing above the largest observed packet is recorded,
-- that packet is recorded once there is one, and the limit for ACKs stays below it.
pub record Inv (h : Handler) : Type 0 where
  pub valid : IsValid h.packet_history
  pub below : (x : ℕ) → contains x h.packet_history ≡ true → x ≤ h.largest_observed
  pub largest_recorded :
      (h.largest_observed ≡ 0) ⊎ (contains h.largest_observed h.packet_history ≡ true)
  pub limit : (h.lower_limit ≡ 0) ⊎ (h.lower_limit < h.largest_observed)
  pub range : h.largest_observed < packet_limit
  pub quiet : h.largest_observed ≡ 0 → (h.ack_queued ≡ false) × (h.ack_alarm ≡ none)

largest-head :
    (largest : ℕ) (el : PacketInterval) (rest : List PacketInterval)
    → Ordered packet_limit (el ∷ rest)
    → covers largest (el ∷ rest) ≡ true
    → ((y : ℕ) → covers y (el ∷ rest) ≡ true → y ≤ largest)
    → el.end ≡ largest
largest-head largest el rest o c b =
    ground (arith, b el.end, covers_above largest (el.start - 1) rest)

frame_acks :
    (x : ℕ) (l : List PacketInterval) (f : AckFrame)
    → Ordered packet_limit l
    → covers f.largest_acked l ≡ true
    → ((y : ℕ) → covers y l ≡ true → y ≤ f.largest_acked)
    → f.lowest_acked ≡ last_first (ranges_of l)
    → f.ack_ranges ≡ several (ranges_of l)
    → acks_packet f x ≡ covers x l
frame_acks x [] f o c b e₂ e₃ = cc
frame_acks x (el ∷ []) f o c b e₂ e₃ =
    unfold acks_packet last_first in ground (arith, largest-head f.largest_acked el [] o c b)
frame_acks x (el ∷ next ∷ rest) f o c b e₂ e₃ =
    acks_packet-in_some_range f x
      (rw e₃ (ranges_of-NoWrap packet_limit (el ∷ next ∷ rest) (omega arith) o))
      (rw e₃ (ground arith)) valid (rw (e₂, e₃))
    ∙ ap (in_some_range x) e₃
    ∙ in_some_range-ranges_of x (el ∷ next ∷ rest)
  where
    valid : validate_ack_ranges f ≡ true
    valid =
        unfold validate_ack_ranges in
        rw (e₃, ← largest-head f.largest_acked el (next ∷ rest) o c b)
          (validate_ranges-ranges_of packet_limit el next rest (omega arith) o)

nonempty : (x : ℕ) (l : List PacketInterval) → covers x l ≡ true → (length l == 0) ≡ false
nonempty x [] c = cc
nonempty x (el ∷ rest) c = ground arith

-- Whenever there is something to send, a packet was recorded.
sending :
    (h : Handler) (now : ℕ)
    → Inv h
    → (not h.ack_queued && not (alarm_passed h.ack_alarm now)) ≡ false
    → contains h.largest_observed h.packet_history ≡ true
sending h now v t = elim v.largest_recorded [
  | inl unseen ↦ absurd (quietly (v.quiet unseen))
  | inr seen ↦ seen
]
  where
    quietly : (h.ack_queued ≡ false) × (h.ack_alarm ≡ none) → ⊥
    quietly q = ground arith

pub get_ack_frame_cases :
    (h : Handler) (groups epoch now : ℕ)
    → Inv h
    → ((not h.ack_queued && not (alarm_passed h.ack_alarm now) ≡ true)
        × (get_ack_frame h groups epoch now ≡ ok (none, h)))
      ⊎ ((not h.ack_queued && not (alarm_passed h.ack_alarm now) ≡ false)
          × (get_ack_frame h groups epoch now
              ≡ ok (some (ack_frame h groups epoch), acknowledged h (ack_frame h groups epoch))))
unfolding get_ack_frame contains
get_ack_frame_cases h groups epoch now v =
    elim (Bool-cases (not h.ack_queued && not (alarm_passed h.ack_alarm now))) [
      | inl idle ↦ inl (idle, rw idle refl)
      | inr busy ↦ inr (
        busy,
        rw (busy, nonempty h.largest_observed h.packet_history.ranges (sending h now v busy)) refl,
      )
    ]

-- A call that returns a frame: the frame, and the state that the call leaves.
pub record Answer (h : Handler) (groups epoch now : ℕ) : Type 0 where
  pub frame : AckFrame
  pub after : Handler
  pub returned : get_ack_frame h groups epoch now ≡ ok (some frame, after)
  pub asked : (h.ack_queued || alarm_passed h.ack_alarm now) ≡ true
  pub largest_acked : frame.largest_acked ≡ h.largest_observed
  pub groups_kept : frame.groups ≡ groups
  pub epoch_kept : frame.epoch ≡ epoch
  pub last_ack : after.last_ack ≡ some frame
  pub ack_alarm : after.ack_alarm ≡ none
  pub ack_queued : after.ack_queued ≡ false
  pub packets_counted : after.packets_received_since_last_ack ≡ 0
  pub retransmittable_counted : after.retransmittable_packets_received_since_last_ack ≡ 0
  pub history : after.packet_history ≡ h.packet_history
  pub largest_observed : after.largest_observed ≡ h.largest_observed
  pub lower_limit : after.lower_limit ≡ h.lower_limit
  pub packets : after.packets ≡ h.packets
  pub silent : (g e later : ℕ) → get_ack_frame after g e later ≡ ok (none, after)

answer :
    (h : Handler) (groups epoch now : ℕ)
    → (not h.ack_queued && not (alarm_passed h.ack_alarm now) ≡ false)
    → get_ack_frame h groups epoch now
      ≡ ok (some (ack_frame h groups epoch), acknowledged h (ack_frame h groups epoch))
    → Answer h groups epoch now
unfolding get_ack_frame acknowledged ack_frame
answer h groups epoch now busy r = record {
  frame = ack_frame h groups epoch;
  after = acknowledged h (ack_frame h groups epoch);
  returned = r;
  asked = ground arith;
  largest_acked = refl;
  groups_kept = refl;
  epoch_kept = refl;
  last_ack = refl;
  ack_alarm = refl;
  ack_queued = refl;
  packets_counted = refl;
  retransmittable_counted = refl;
  history = refl;
  largest_observed = refl;
  lower_limit = refl;
  packets = refl;
  silent = λ g e later. refl;
}

-- In a state that satisfies the invariant GetAckFrame does not panic. If no ACK is queued and the alarm
-- is not due, it returns no frame and changes nothing. Otherwise it returns a frame, up to the largest
-- observed packet and with the group and the epoch given; the frame is noted as the last ACK, the alarm
-- and the queued flag are cleared, both counters are zero, the history, the largest packet, the lower
-- limit and the statistics are as before, and every next call returns no frame.
pub get_ack_frame_total :
    (h : Handler) (groups epoch now : ℕ)
    → Inv h
    → ((h.ack_queued || alarm_passed h.ack_alarm now) ≡ false)
        × (get_ack_frame h groups epoch now ≡ ok (none, h))
      ⊎ Answer h groups epoch now
get_ack_frame_total h groups epoch now v = elim (get_ack_frame_cases h groups epoch now v) [
  | inl (idle, r) ↦ inl (ground arith, r)
  | inr (busy, r) ↦ inr (answer h groups epoch now busy r)
]

-- In a state that satisfies the invariant a frame that GetAckFrame returns acknowledges exactly the
-- packets that are recorded as received.
pub acks_packet-get_ack_frame :
    (h h' : Handler) (groups epoch now x : ℕ) (f : AckFrame)
    → Inv h
    → get_ack_frame h groups epoch now ≡ ok (some f, h')
    → acks_packet f x ≡ contains x h.packet_history
acks_packet-get_ack_frame h h' groups epoch now x f v e =
    elim (Bool-cases (not h.ack_queued && not (alarm_passed h.ack_alarm now))) [
      | inl idle ↦ absurd (nothing idle)
      | inr busy ↦ rw (made busy) (acks busy)
    ]
  where
    nothing : (not h.ack_queued && not (alarm_passed h.ack_alarm now)) ≡ true → ⊥
    nothing idle = unfold get_ack_frame in ground arith

    made :
        (not h.ack_queued && not (alarm_passed h.ack_alarm now)) ≡ false
        → f ≡ ack_frame h groups epoch
    made busy = unfold get_ack_frame in ground arith

    acks :
        (not h.ack_queued && not (alarm_passed h.ack_alarm now)) ≡ false
        → acks_packet (ack_frame h groups epoch) x ≡ contains x h.packet_history
    acks busy =
        unfold contains ack_frame get_ack_ranges in
        frame_acks x h.packet_history.ranges (ack_frame h groups epoch) v.valid
          (sending h now v busy) v.below refl refl
