-- ===== src/AckHandler/Sent/InFlight.antt =====
-- The bytes in flight are those of the history, and no packet that is to be sent again gets lost.
use mpquic_sbd.Base.{
  ℕ, zero, suc, ◌-◌, ◌*◌, ◌^◌, ◌≤◌, ◌<◌, ◌≡◌, refl, sym, ◌∙◌, ap, subst, Bool, true, false, inl,
  inr, List, [], ◌∷◌, ◌++◌, Option, none, some, ltb, length, All, if◌then◌else◌, Bool-cases,
  Option-cases, List-cases, arith,
}
use mathlib.Core.List.{Perm, perm_middle, append-nil, append_assoc}
use mathlib.Core.List.Perm
use mpquic_sbd.Protocol.{sub_u64}
use mpquic_sbd.AckHandler.Packet.{Packet}
use mpquic_sbd.AckHandler.Sent.{SendAlgorithm, remove}
use mpquic_sbd.AckHandler.Sent.Acked.{Increasing}
use mpquic_sbd.AckHandler.Sent.Removal.{
  total, Sub, Sub-weaken, Sub-refl, remove-Removed, All-remove,
}
use mpquic_sbd.AckHandler.Sent
use mpquic_sbd.AckHandler.Sent.Handler
use mpquic_sbd.AckHandler.Sent.Handler.{Handler}

abbrev pub Sane : ℕ → Packet → Type 0
Sane last p = (p.packet_number ≤ last) × (p.length < 2 ^ 32)

-- Of a history, the number of the last packet sent, and the bytes in flight.
pub record Tracked (last : ℕ) (history : List Packet) (bytes : ℕ) : Type 0 where
  pub increasing : Increasing 0 history
  pub sane : All (Sane last) history
  pub few : length history ≤ 5000
  pub flying : bytes ≡ total history

pub total_bound : (last : ℕ) (l : List Packet) → All (Sane last) l → total l ≤ length l * 2 ^ 32
total_bound last [] a = omega arith
total_bound last (p ∷ rest) a = omega (arith, total_bound last rest a.1, a.0)

Tracked-remove :
    (last : ℕ) (x : Packet) (xs l : List Packet) (bytes : ℕ)
    → Tracked last l bytes
    → Sub (x ∷ xs) l
    → Tracked last (remove x.packet_number l) (sub_u64 bytes x.length)
Tracked-remove last x xs l bytes t s =
    let v = remove-Removed 0 x xs l t.increasing s in
    record {
      increasing = v.increasing;
      sane = All-remove (Sane last) x.packet_number l t.sane;
      few = omega (arith, v.count, t.few);
      flying = omega (arith, v.sum, t.flying, total_bound last l t.sane, t.few);
    }

moved_last : (r q : List Packet) (x : Packet) → Perm (r ++ (q ++ (x ∷ []))) ((x ∷ r) ++ q)
moved_last r q x =
    subst (λ (l : List Packet). Perm l (x ∷ (r ++ q))) (append_assoc r q (x ∷ []))
      (subst (λ (l : List Packet). Perm ((r ++ q) ++ (x ∷ [])) (x ∷ l)) (append-nil (r ++ q))
        (perm_middle (r ++ q) []))

module _ (alg : SendAlgorithm) where
  abbrev pub Inv : Handler alg → Type 0
  Inv h = Tracked h.last_sent_packet_number h.packet_history h.bytes_in_flight

  -- The packets that are in flight or wait to be sent again.
  abbrev pub held : Handler alg → List Packet
  held h = h.packet_history ++ h.retransmission_queue

  -- `h'` holds what `h` holds, but for the packets `out`.
  pub record Moves (h h' : Handler alg) (out : List Packet) : Type 0 where
    pub inv : Inv h'
    pub last : h'.last_sent_packet_number ≡ h.last_sent_packet_number
    pub acked : h'.largest_acked ≡ h.largest_acked
    pub perm : Perm (out ++ held h') (held h)

  pub stays : (h : Handler alg) → Inv h → Moves h h []
  stays h i = record { inv = i; last = refl; acked = refl; perm = Perm.refl (held h) }

  pub trans-Moves :
      (h h' h'' : Handler alg) (out : List Packet)
      → Moves h h' out
      → Moves h' h'' []
      → Moves h h'' out
  trans-Moves h h' h'' out m n = record {
    inv = n.inv;
    last = n.last ∙ m.last;
    acked = n.acked ∙ m.acked;
    perm = Perm.trans (Perm.append_left out n.perm) m.perm;
  }

  on_packet_acked-Moves :
      (h : Handler alg) (x : Packet) (xs : List Packet)
      → Inv h
      → Sub (x ∷ xs) h.packet_history
      → Moves h (Handler.on_packet_acked alg h x) (x ∷ [])
  unfolding Handler.on_packet_acked
  on_packet_acked-Moves h x xs i s = record {
    inv = Tracked-remove h.last_sent_packet_number x xs h.packet_history h.bytes_in_flight i s;
    last = refl;
    acked = refl;
    perm =
        Perm.append_right h.retransmission_queue
          (remove-Removed 0 x xs h.packet_history i.increasing s).perm;
  }

  pub all_acked-Moves :
      (h : Handler alg) (acked : List Packet)
      → Inv h
      → Sub acked h.packet_history
      → Moves h (Handler.all_acked alg h acked) acked
  unfolding Handler.all_acked
  all_acked-Moves h [] i s = stays h i
  all_acked-Moves h (x ∷ xs) i s =
      let first = on_packet_acked-Moves h x xs i s in
      let rest =
        all_acked-Moves (Handler.on_packet_acked alg h x) xs first.inv (part_left h x xs i s) in
      record {
        inv = rest.inv;
        last = rest.last ∙ first.last;
        acked = rest.acked ∙ first.acked;
        perm = Perm.trans (Perm.cons x rest.perm) first.perm;
      }
    where
      part_left :
          (h : Handler alg) (x : Packet) (xs : List Packet)
          → Inv h
          → Sub (x ∷ xs) h.packet_history
          → Sub xs (Handler.on_packet_acked alg h x).packet_history
      part_left h x xs i s =
          unfold Handler.on_packet_acked in
          (remove-Removed 0 x xs h.packet_history i.increasing s).part

  pub queue-Moves :
      (h : Handler alg) (x : Packet) (xs : List Packet)
      → Inv h
      → Sub (x ∷ xs) h.packet_history
      → Moves h (Handler.queue_packet_for_retransmission alg h x) []
  unfolding Handler.queue_packet_for_retransmission
  queue-Moves h x xs i s = record {
    inv = Tracked-remove h.last_sent_packet_number x xs h.packet_history h.bytes_in_flight i s;
    last = refl;
    acked = refl;
    perm = Perm.trans (moved_last _ h.retransmission_queue x) (
        Perm.append_right h.retransmission_queue
          (remove-Removed 0 x xs h.packet_history i.increasing s).perm);
  }

  same_fields :
      (h h' : Handler alg)
      → h'.packet_history ≡ h.packet_history
      → h'.retransmission_queue ≡ h.retransmission_queue
      → h'.bytes_in_flight ≡ h.bytes_in_flight
      → h'.last_sent_packet_number ≡ h.last_sent_packet_number
      → h'.largest_acked ≡ h.largest_acked
      → Inv h
      → Moves h h' []
  same_fields h h' eh eq eb el ea i = record {
    inv = rw (eh, eb, el) i;
    last = el;
    acked = ea;
    perm = rw (eh, eq) (Perm.refl (held h));
  }

  pub update_loss_detection_alarm-Moves :
      (h : Handler alg) → Inv h → Moves h (Handler.update_loss_detection_alarm alg h) []
  unfolding Handler.update_loss_detection_alarm
  update_loss_detection_alarm-Moves h i =
      same_fields h (Handler.update_loss_detection_alarm alg h) (ground arith) (ground arith)
        (ground arith) (ground arith) (ground arith) i

  queue-part :
      (h : Handler alg) (x : Packet) (xs : List Packet)
      → Inv h
      → Sub (x ∷ xs) h.packet_history
      → Sub xs (Handler.queue_packet_for_retransmission alg h x).packet_history
  unfolding Handler.queue_packet_for_retransmission
  queue-part h x xs i s = (remove-Removed 0 x xs h.packet_history i.increasing s).part

  pub all_lost-Moves :
      (h : Handler alg) (lost : List Packet)
      → Inv h
      → Sub lost h.packet_history
      → Moves h (Handler.all_lost alg h lost) []
  unfolding Handler.all_lost
  all_lost-Moves h [] i s = stays h i
  all_lost-Moves h (x ∷ xs) i s =
      let queued = Handler.queue_packet_for_retransmission alg h x in
      let first = queue-Moves h x xs i s in
      let told = Handler.congestion_lost alg queued x in
      let second = same_fields queued told refl refl refl refl refl first.inv in
      trans-Moves h queued _ [] first (
        trans-Moves queued told _ [] second
          (all_lost-Moves told xs second.inv (queue-part h x xs i s)))

  lost_packets-Sub :
      (largest delay now : ℕ) (l : List Packet)
      → Sub (Handler.lost_packets alg largest delay now l) l
  unfolding Handler.lost_packets
  lost_packets-Sub largest delay now [] = tt
  lost_packets-Sub largest delay now (p ∷ rest) =
      let later = lost_packets-Sub largest delay now rest in
      elim (Bool-cases (ltb largest p.packet_number)) [
        | inl e ↦ rw e tt
        | inr e ↦ elim (Bool-cases (ltb delay (now - p.send_time))) [
          | inl d ↦ rw (e, d) (inl (refl, later))
          | inr d ↦ rw (e, d) (Sub-weaken p _ rest later)
        ]
      ]

  packets_up_to-Sub : (largest : ℕ) (l : List Packet) → Sub (Handler.packets_up_to alg largest l) l
  unfolding Handler.packets_up_to
  packets_up_to-Sub largest [] = tt
  packets_up_to-Sub largest (p ∷ rest) = elim (Bool-cases (ltb largest p.packet_number)) [
    | inl e ↦ rw e tt
    | inr e ↦ rw e (inl (refl, packets_up_to-Sub largest rest))
  ]

  pub detect_lost_packets-Moves :
      (h : Handler alg) (now : ℕ) → Inv h → Moves h (Handler.detect_lost_packets alg h now) []
  unfolding Handler.detect_lost_packets
  detect_lost_packets-Moves h now i =
      let m =
        all_lost-Moves _ _ i (
          lost_packets-Sub h.largest_acked (Handler.delay_until_lost alg h) now h.packet_history) in
      record { inv = m.inv; last = m.last; acked = m.acked; perm = m.perm }

  pub set_inflight_as_lost-Moves :
      (h : Handler alg) → Inv h → Moves h (Handler.set_inflight_as_lost alg h) []
  unfolding Handler.set_inflight_as_lost
  set_inflight_as_lost-Moves h i =
      let m = all_lost-Moves _ _ i (packets_up_to-Sub h.largest_acked h.packet_history) in
      record { inv = m.inv; last = m.last; acked = m.acked; perm = m.perm }

  queue_rto-Moves :
      (h : Handler alg) (p : Packet) (xs : List Packet)
      → Inv h
      → Sub (p ∷ xs) h.packet_history
      → Moves h (Handler.queue_rto alg h p) []
  unfolding Handler.queue_rto
  queue_rto-Moves h p xs i s =
      let m = queue-Moves h p xs i s in
      record { inv = m.inv; last = m.last; acked = m.acked; perm = m.perm }

  pub retransmit_oldest_none :
      (n : ℕ) (h : Handler alg)
      → h.packet_history ≡ []
      → Handler.retransmit_oldest alg (suc n) h ≡ h
  unfolding Handler.retransmit_oldest
  retransmit_oldest_none n h e =
      ap
        (λ (l : List Packet). elim l as (λ _. Handler alg) [
          | [] ↦ h
          | p ∷ _ ↦ Handler.retransmit_oldest alg n (Handler.queue_rto alg h p)
        ])
        e

  pub retransmit_oldest_some :
      (n : ℕ) (h : Handler alg) (p : Packet) (rest : List Packet)
      → h.packet_history ≡ p ∷ rest
      → Handler.retransmit_oldest alg (suc n) h
        ≡ Handler.retransmit_oldest alg n (Handler.queue_rto alg h p)
  unfolding Handler.retransmit_oldest
  retransmit_oldest_some n h p rest e =
      ap
        (λ (l : List Packet). elim l as (λ _. Handler alg) [
          | [] ↦ h
          | q ∷ _ ↦ Handler.retransmit_oldest alg n (Handler.queue_rto alg h q)
        ])
        e

  pub retransmit_oldest-Moves :
      (n : ℕ) (h : Handler alg) → Inv h → Moves h (Handler.retransmit_oldest alg n h) []
  unfolding Handler.retransmit_oldest
  retransmit_oldest-Moves zero h i = stays h i
  retransmit_oldest-Moves (suc n) h i = elim (List-cases h.packet_history) [
    | inl e ↦
        subst (λ (z : Handler alg). Moves h z []) (sym (retransmit_oldest_none n h e)) (stays h i)
    | inr (p, rest, e) ↦
        let front = subst (λ (l : List Packet). Sub (p ∷ rest) l) (sym e) (Sub-refl (p ∷ rest)) in
        let m = queue_rto-Moves h p rest i front in
        subst (λ (z : Handler alg). Moves h z []) (sym (retransmit_oldest_some n h p rest e))
          (trans-Moves h (Handler.queue_rto alg h p) _ [] m
            (retransmit_oldest-Moves n (Handler.queue_rto alg h p) m.inv))
  ]

  last_packet-Sub :
      (l : List Packet) (p : Packet) → Handler.last_packet alg l ≡ some p → Sub (p ∷ []) l
  unfolding Handler.last_packet
  last_packet-Sub [] p e = absurd (ground arith)
  last_packet-Sub (q ∷ []) p e = inl (ground arith, tt)
  last_packet-Sub (q ∷ r ∷ rest) p e = inr (last_packet-Sub (r ∷ rest) p e)

  retransmit_tlp-Moves : (h : Handler alg) → Inv h → Moves h (Handler.retransmit_tlp alg h) []
  unfolding Handler.retransmit_tlp
  retransmit_tlp-Moves h i = elim (Option-cases (Handler.last_packet alg h.packet_history)) [
    | inl e ↦ rw (Handler.retransmit_tlp, e) (stays h i)
    | inr (p, e) ↦
        rw (Handler.retransmit_tlp, e) (queue-Moves h p [] i (last_packet-Sub h.packet_history p e))
  ]

  either-Moves :
      (b : Bool) (h x y : Handler alg)
      → Moves h x []
      → Moves h y []
      → Moves h (if b then x else y) []
  either-Moves true h x y mx my = mx
  either-Moves false h x y mx my = my

  timer-Moves :
      (t : Option ℕ) (h x y : Handler alg)
      → Moves h x []
      → Moves h y []
      → Moves h (elim t as (λ _. Handler alg) [ some _ ↦ x | none ↦ y ]) []
  timer-Moves none h x y mx my = my
  timer-Moves (some _) h x y mx my = mx

  tlp_fired-Moves : (h : Handler alg) → Inv h → Moves h (Handler.tlp_fired alg h) []
  unfolding Handler.tlp_fired
  tlp_fired-Moves h i =
      let m = retransmit_tlp-Moves h i in
      record { inv = m.inv; last = m.last; acked = m.acked; perm = m.perm }

  timed_out-Moves :
      (n : ℕ) (h : Handler alg)
      → Inv h
      → Moves h (Handler.timed_out alg (Handler.retransmit_oldest alg n h)) []
  timed_out-Moves n h i =
      let m = retransmit_oldest-Moves n h i in
      record { inv = m.inv; last = m.last; acked = m.acked; perm = m.perm }

  rto_fired-Moves :
      (failed : ℕ → Bool) (h : Handler alg) → Inv h → Moves h (Handler.rto_fired alg failed h) []
  unfolding Handler.rto_fired Handler.retransmit_all_packets Handler.retransmit_oldest_two_packets
  rto_fired-Moves failed h i =
      let m =
        either-Moves (failed h.last_sent_time) h _ _ (timed_out-Moves (length h.packet_history) h i)
          (timed_out-Moves 2 h i) in
      record { inv = m.inv; last = m.last; acked = m.acked; perm = m.perm }

  alarm_fired-Moves :
      (failed : ℕ → Bool) (h : Handler alg) (now : ℕ)
      → Inv h
      → Moves h (Handler.alarm_fired alg failed h now) []
  unfolding Handler.alarm_fired
  alarm_fired-Moves failed h now i =
      timer-Moves h.loss_time h _ _ (detect_lost_packets-Moves h now i) (
        either-Moves (ltb h.tlp_count Sent.max_tail_loss_probes) h _ _ (tlp_fired-Moves h i)
          (rto_fired-Moves failed h i))

  pub on_alarm-Moves :
      (failed : ℕ → Bool) (h : Handler alg) (now : ℕ)
      → Inv h
      → Moves h (Handler.on_alarm alg failed h now) []
  unfolding Handler.on_alarm
  on_alarm-Moves failed h now i =
      let m = alarm_fired-Moves failed h now i in
      let fired = Handler.alarm_fired alg failed h now in
      either-Moves (Handler.has_outstanding_retransmittable_packet alg h.packet_history) h _ _
        (trans-Moves h fired _ [] m (update_loss_detection_alarm-Moves fired m.inv))
        (same_fields h (record h { alarm = none }) refl refl refl refl refl i)

  pub maybe_update_rtt-Moves :
      (h : Handler alg) (largest delay received now : ℕ)
      → Inv h
      → Moves h (Handler.maybe_update_rtt alg h largest delay received now) []
  unfolding Handler.maybe_update_rtt
  maybe_update_rtt-Moves h largest delay received now i =
      same_fields h (Handler.maybe_update_rtt alg h largest delay received now) (ground arith)
        (ground arith) (ground arith) (ground arith) (ground arith) i
