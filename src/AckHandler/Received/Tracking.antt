-- ===== src/AckHandler/Received/Tracking.antt =====
-- What the calls of the receiver keep: its invariant.
use mpquic_sbd.Base.{
  ℕ, ◌+◌, ◌≤◌, ◌<◌, ◌≡◌, refl, ◌∙◌, ◌⊎◌, inl, inr, Bool, true, false, ◌&&◌, ◌||◌, Option, some, ok,
  ltb, leb, ◌==◌, if◌then◌else◌, arith, Bool-cases, Result-cases,
}
use mpquic_sbd.Base.Int.{ℤ}
use mpquic_sbd.Wire.Ack.{AckFrame}
use mpquic_sbd.AckHandler.History
use mpquic_sbd.AckHandler.History.{History, new_received_packet_history}
use mpquic_sbd.AckHandler.History.Invariant.{
  packet_limit, received_packet-IsValid, delete_up_to-IsValid,
}
use mpquic_sbd.AckHandler.History.Contents.{
  contains, contains-received_packet, contains-delete_up_to,
}
use mpquic_sbd.AckHandler.Received.{
  Handler, HandlerError, too_many_ranges, received_packet, set_lower_limit, get_ack_frame,
  acknowledged, ack_frame, observe, maybe_queue_ack, queue_or_arm, new_received_packet_handler,
}
use mpquic_sbd.AckHandler.Received.Acknowledges.{Inv, get_ack_frame_cases}

pub new_received_packet_handler-Inv : (version : ℤ) → Inv (new_received_packet_handler version)
unfolding new_received_packet_handler contains new_received_packet_history
new_received_packet_handler-Inv version = record {
  valid = tt;
  below = λ x c. cc;
  largest_recorded = inl refl;
  limit = inl refl;
  range = omega arith;
  quiet = λ _. (refl, refl);
}

pub maybe_queue_ack_keeps :
    (h : Handler) (p : ℕ) (i : Bool) (now : ℕ)
    → ((maybe_queue_ack h p i now).packet_history ≡ h.packet_history)
      × ((maybe_queue_ack h p i now).largest_observed ≡ h.largest_observed)
      × ((maybe_queue_ack h p i now).lower_limit ≡ h.lower_limit)
unfolding maybe_queue_ack queue_or_arm
maybe_queue_ack_keeps h p i now = (ground arith, ground arith, ground arith)

-- What the handler's invariant says of the three fields that matter, for a packet seen.
record Seen (history : History) (largest lower : ℕ) : Type 0 where
  valid : History.Invariant.IsValid history
  below : (x : ℕ) → contains x history ≡ true → x ≤ largest
  recorded : contains largest history ≡ true
  limit : (lower ≡ 0) ⊎ (lower < largest)
  range : largest < packet_limit
  some_packet : 0 < largest

Seen-Inv :
    (h : Handler) (history : History) (largest lower : ℕ)
    → h.packet_history ≡ history
    → h.largest_observed ≡ largest
    → h.lower_limit ≡ lower
    → Seen history largest lower
    → Inv h
Seen-Inv h history largest lower e₁ e₂ e₃ s = record {
  valid = rw e₁ s.valid;
  below = rw (e₁, e₂) s.below;
  largest_recorded = inr (rw (e₁, e₂) s.recorded);
  limit = rw (e₂, e₃) s.limit;
  range = rw e₂ s.range;
  quiet = λ z. absurd (omega (arith, s.some_packet));
}

-- The larger of the packet number and the largest observed so far.
abbrev pub larger : ℕ → ℕ → ℕ
larger largest p = if ltb largest p then p else largest

recorded-Seen :
    (h : Handler) (history : History) (p : ℕ)
    → Inv h
    → 0 < p
    → p < packet_limit
    → History.received_packet h.packet_history p ≡ ok history
    → Seen history (larger h.largest_observed p) h.lower_limit
recorded-Seen h history p v z b e = record {
  valid = received_packet-IsValid h.packet_history history p z b v.valid e;
  below = λ x c. ground (arith, held x, v.below x);
  recorded = ground (arith, held p, held h.largest_observed, v.largest_recorded);
  limit = ground (arith, v.limit);
  range = ground (arith, v.range);
  some_packet = ground arith;
}
  where
    held : (x : ℕ) → contains x history ≡ ((x == p) || contains x h.packet_history)
    held x = contains-received_packet h.packet_history history p x z b v.valid e

-- The receiver after a packet that the history takes.
abbrev pub queued : Handler → History → ℕ → Bool → ℕ → Handler
queued h history p i now =
    maybe_queue_ack (record (observe h p now) { packet_history = history }) p i now

pub queued_keeps :
    (h : Handler) (history : History) (p : ℕ) (i : Bool) (now : ℕ)
    → ((queued h history p i now).packet_history ≡ history)
      × ((queued h history p i now).largest_observed ≡ larger h.largest_observed p)
      × ((queued h history p i now).lower_limit ≡ h.lower_limit)
queued_keeps h history p i now =
    let seen : Handler = record (observe h p now) { packet_history = history } in
    let keeps = maybe_queue_ack_keeps seen p i now in
    (keeps.0, keeps.1 ∙ unfold observe in ground arith, keeps.2 ∙ unfold observe in ground arith)

-- A call failed since the history is full.
abbrev pub is_full : Option HandlerError → Bool
is_full (some too_many_ranges) = true
is_full other = false

pub received_packet-Inv :
    (h : Handler) (p : ℕ) (i : Bool) (now : ℕ)
    → Inv h
    → p < packet_limit
    → is_full (received_packet h p i now).error ≡ false
    → Inv (received_packet h p i now).after
unfolding received_packet
received_packet-Inv h p i now v b e = elim (Bool-cases (p == 0)) [
  | inl bad ↦ rw (received_packet, bad) v
  | inr good ↦ elim (Bool-cases (leb p h.lower_limit)) [
    | inl stale ↦
        let same : observe h p now ≡ record h { packets = h.packets + 1 } =
          unfold observe in ground (arith, v.limit) in
        rw (received_packet, good, stale, same)
          record {
            valid = v.valid;
            below = v.below;
            largest_recorded = v.largest_recorded;
            limit = v.limit;
            range = v.range;
            quiet = v.quiet;
          }
    | inr fresh ↦ elim (Result-cases (History.received_packet h.packet_history p)) [
      | inl (history, r) ↦
          let keeps = queued_keeps h history p i now in
          rw (received_packet, good, fresh, r)
            (Seen-Inv (queued h history p i now) history (larger h.largest_observed p) h.lower_limit
              keeps.0 keeps.1 keeps.2 (recorded-Seen h history p v (ground arith) b r))
      | inr (x, r) ↦ absurd (ground arith)
    ]
  ]
]

pub set_lower_limit-Inv :
    (h : Handler) (p : ℕ) → Inv h → p < h.largest_observed → Inv (set_lower_limit h p)
unfolding set_lower_limit
set_lower_limit-Inv h p v b =
    Seen-Inv (set_lower_limit h p) (History.delete_up_to h.packet_history p) h.largest_observed p
      refl refl refl
      (record {
        valid = delete_up_to-IsValid h.packet_history p v.valid;
        below = λ x c. ground (arith, held x, v.below x);
        recorded = ground (arith, held h.largest_observed, v.largest_recorded);
        limit = inr b;
        range = v.range;
        some_packet = omega arith;
      })
  where
    held :
        (x : ℕ)
        → contains x (History.delete_up_to h.packet_history p)
          ≡ (ltb p x && contains x h.packet_history)
    held x = contains-delete_up_to h.packet_history p x v.valid

pub get_ack_frame-Inv :
    (h h' : Handler) (groups epoch now : ℕ) (frame : Option AckFrame)
    → Inv h
    → get_ack_frame h groups epoch now ≡ ok (frame, h')
    → Inv h'
unfolding acknowledged
get_ack_frame-Inv h h' groups epoch now frame v e =
    elim (get_ack_frame_cases h groups epoch now v) [
      | inl (quiet, idle) ↦ let same : h' ≡ h = ground (arith, idle) in rw same v
      | inr (asked, busy) ↦
          let same : h' ≡ acknowledged h (ack_frame h groups epoch) = ground (arith, busy) in
          rw same (record {
            valid = v.valid;
            below = v.below;
            largest_recorded = v.largest_recorded;
            limit = v.limit;
            range = v.range;
            quiet = λ _. (refl, refl);
          })
    ]
