-- ===== src/AckHandler/Received/Bounds.antt =====
-- The part of the receiver's invariant that calls of ReceivedPacket keep also where they fail.
use mpquic_sbd.Base.{
  ℕ, ◌≤◌, ◌<◌, ◌≡◌, ◌⊎◌, inl, inr, Bool, true, ◌||◌, Option, ok, leb, ◌==◌, arith, Bool-cases,
  Result-cases,
}
use mpquic_sbd.Wire.Ack.{AckFrame}
use mpquic_sbd.AckHandler.History
use mpquic_sbd.AckHandler.History.{History, new_received_packet_history}
use mpquic_sbd.AckHandler.History.Invariant.{
  packet_limit, received_packet-IsValid, delete_up_to-IsValid,
}
use mpquic_sbd.AckHandler.History.Contents.{
  contains, contains-received_packet, contains-delete_up_to,
}
use mpquic_sbd.AckHandler.Received.{
  Handler, received_packet, set_lower_limit, get_ack_frame, acknowledged, observe,
}
use mpquic_sbd.AckHandler.Received.Acknowledges.{Inv}
use mpquic_sbd.AckHandler.Received.Tracking.{larger, queued, queued_keeps}

-- The part that a call that fails keeps: nothing above the largest packet is recorded.
pub record Bounded (history : History) (largest lower : ℕ) : Type 0 where
  pub valid : History.Invariant.IsValid history
  pub below : (x : ℕ) → contains x history ≡ true → x ≤ largest
  pub limit : (lower ≡ 0) ⊎ (lower < largest)
  pub range : largest < packet_limit

abbrev pub IsBounded : Handler → Type 0
IsBounded h = Bounded h.packet_history h.largest_observed h.lower_limit

pub Inv-IsBounded : (h : Handler) → Inv h → IsBounded h
Inv-IsBounded h v = record { valid = v.valid; below = v.below; limit = v.limit; range = v.range }

Bounded-IsBounded :
    (h : Handler) (history : History) (largest lower : ℕ)
    → h.packet_history ≡ history
    → h.largest_observed ≡ largest
    → h.lower_limit ≡ lower
    → Bounded history largest lower
    → IsBounded h
Bounded-IsBounded h history largest lower e₁ e₂ e₃ b = record {
  valid = rw e₁ b.valid;
  below = rw (e₁, e₂) b.below;
  limit = rw (e₂, e₃) b.limit;
  range = rw e₂ b.range;
}

recorded-Bounded :
    (h : Handler) (history : History) (p : ℕ)
    → IsBounded h
    → 0 < p
    → p < packet_limit
    → History.received_packet h.packet_history p ≡ ok history
    → Bounded history (larger h.largest_observed p) h.lower_limit
recorded-Bounded h history p v z b e = record {
  valid = received_packet-IsValid h.packet_history history p z b v.valid e;
  below = λ x c. ground (arith, held x, v.below x);
  limit = ground (arith, v.limit);
  range = ground (arith, v.range);
}
  where
    held : (x : ℕ) → contains x history ≡ ((x == p) || contains x h.packet_history)
    held x = contains-received_packet h.packet_history history p x z b v.valid e

-- Noting the packet alone, which is what a call that fails does.
observe-IsBounded :
    (h : Handler) (p now : ℕ) → IsBounded h → p < packet_limit → IsBounded (observe h p now)
observe-IsBounded h p now v b =
    Bounded-IsBounded (observe h p now) h.packet_history (larger h.largest_observed p) h.lower_limit
      (unfold observe in ground arith) (unfold observe in ground arith)
      (unfold observe in ground arith)
      record {
        valid = v.valid;
        below = λ x c. ground (arith, v.below x);
        limit = ground (arith, v.limit);
        range = ground (arith, v.range);
      }

pub received_packet-IsBounded :
    (h : Handler) (p : ℕ) (i : Bool) (now : ℕ)
    → IsBounded h
    → p < packet_limit
    → IsBounded (received_packet h p i now).after
unfolding received_packet
received_packet-IsBounded h p i now v b = elim (Bool-cases (p == 0)) [
  | inl bad ↦ rw (received_packet, bad) v
  | inr good ↦ elim (Bool-cases (leb p h.lower_limit)) [
    | inl stale ↦ rw (received_packet, good, stale) (observe-IsBounded h p now v b)
    | inr fresh ↦ elim (Result-cases (History.received_packet h.packet_history p)) [
      | inl (history, r) ↦
          let keeps = queued_keeps h history p i now in
          rw (received_packet, good, fresh, r)
            (Bounded-IsBounded (queued h history p i now) history (larger h.largest_observed p)
              h.lower_limit keeps.0 keeps.1 keeps.2
              (recorded-Bounded h history p v (ground arith) b r))
      | inr (x, r) ↦ rw (received_packet, good, fresh, r) (observe-IsBounded h p now v b)
    ]
  ]
]

pub set_lower_limit-IsBounded :
    (h : Handler) (p : ℕ) → IsBounded h → p < h.largest_observed → IsBounded (set_lower_limit h p)
unfolding set_lower_limit
set_lower_limit-IsBounded h p v b = record {
  valid = delete_up_to-IsValid h.packet_history p v.valid;
  below = λ x c. ground (arith, contains-delete_up_to h.packet_history p x v.valid, v.below x);
  limit = inr b;
  range = v.range;
}

pub get_ack_frame-IsBounded :
    (h h' : Handler) (groups epoch now : ℕ) (frame : Option AckFrame)
    → IsBounded h
    → get_ack_frame h groups epoch now ≡ ok (frame, h')
    → IsBounded h'
get_ack_frame-IsBounded h h' groups epoch now frame v e =
    Bounded-IsBounded h' h.packet_history h.largest_observed h.lower_limit
      (unfold get_ack_frame acknowledged in ground arith)
      (unfold get_ack_frame acknowledged in ground arith)
      (unfold get_ack_frame acknowledged in ground arith) v
