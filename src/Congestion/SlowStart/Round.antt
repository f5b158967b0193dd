-- ===== src/Congestion/SlowStart/Round.antt =====
-- quic-go/congestion/hybrid_slow_start.go: what a round of samples finds.
use mpquic_sbd.Base.{
  ℕ, ◌+◌, ◌%◌, ◌^◌, ◌≤◌, ◌<◌, ◌≡◌, ◌≢◌, refl, sym, ◌∙◌, ap, subst, inl, inr, true, false, ◌&&◌,
  ◌||◌, List, [], ◌∷◌, ◌++◌, ltb, ◌==◌, length, min, All, Bool-cases, arith,
}
use mpquic_sbd.Congestion.SlowStart.{
  HybridSlowStart, start_receive_round, take_sample, should_exit_slow_start, rtt_increase_threshold,
  hybrid_start_min_samples,
}

-- One call for each sample: the round-trip time, and the least one of the session.
abbrev pub sampled : ℕ → List (ℕ × ℕ) → HybridSlowStart → HybridSlowStart
sampled window [] s = s
sampled window (x ∷ rest) s = sampled window rest (should_exit_slow_start s x.0 x.1 window).1

-- The least of the round-trip times.
abbrev pub smallest : ℕ → List (ℕ × ℕ) → ℕ
smallest first [] = first
smallest first (x ∷ rest) = smallest (min first x.0) rest

abbrev IsPositive : ℕ × ℕ → Type 0
IsPositive x = 1 ≤ x.0

record IsRunning (s : HybridSlowStart) (n : ℕ) : Type 0 where
  started : s.started ≡ true
  count : s.rtt_sample_count ≡ n
  open_yet : s.hystart_found ≡ false

running_step :
    (s : HybridSlowStart) (n window latest_rtt min_rtt : ℕ)
    → IsRunning s n
    → (should_exit_slow_start s latest_rtt min_rtt window).1 ≡ take_sample s latest_rtt min_rtt
unfolding should_exit_slow_start
running_step s n window latest_rtt min_rtt r = ground (arith, r.started, r.open_yet)

found_stays :
    (window : ℕ) (l : List (ℕ × ℕ)) (s : HybridSlowStart)
    → s.hystart_found ≡ true
    → (sampled window l s).hystart_found ≡ true
unfolding should_exit_slow_start start_receive_round
found_stays window [] s e = e
found_stays window (x ∷ rest) s e =
    found_stays window rest (should_exit_slow_start s x.0 x.1 window).1 (ground arith)

-- A sample that is not the eighth of its round.
other_sample :
    (s : HybridSlowStart) (n latest_rtt min_rtt : ℕ)
    → IsRunning s n
    → n + 1 ≢ hybrid_start_min_samples
    → n + 1 < 2 ^ 32
    → IsRunning (take_sample s latest_rtt min_rtt) (n + 1)
unfolding take_sample
other_sample s n latest_rtt min_rtt r h b = record {
  started = r.started;
  count = omega (arith, r.count, b);
  open_yet = ground (arith, r.count, r.open_yet);
}

late_samples :
    (window n : ℕ) (l : List (ℕ × ℕ)) (s : HybridSlowStart)
    → IsRunning s n
    → hybrid_start_min_samples ≤ n
    → n + length l < 2 ^ 32
    → (sampled window l s).hystart_found ≡ false
late_samples window n [] s r h b = r.open_yet
late_samples window n (x ∷ rest) s r h b =
    ap (λ z. (sampled window rest z).hystart_found) (running_step s n window x.0 x.1 r)
    ∙ late_samples window (n + 1) rest (take_sample s x.0 x.1)
        (other_sample s n x.0 x.1 r (λ e. omega (arith, e, h)) (omega (arith, b)))
        (omega (arith, h)) (omega (arith, b))

sample_min :
    (s : HybridSlowStart) (n latest_rtt min_rtt : ℕ)
    → IsRunning s n
    → n < hybrid_start_min_samples
    → 1 ≤ s.current_min_rtt
    → (take_sample s latest_rtt min_rtt).current_min_rtt ≡ min s.current_min_rtt latest_rtt
unfolding take_sample
sample_min s n latest_rtt min_rtt r h p = ground (arith, r.count)

eighth_sample :
    (s : HybridSlowStart) (latest_rtt min_rtt : ℕ)
    → IsRunning s 7
    → 1 ≤ s.current_min_rtt
    → (take_sample s latest_rtt min_rtt).hystart_found
      ≡ ltb (min_rtt + rtt_increase_threshold min_rtt) (min s.current_min_rtt latest_rtt)
unfolding take_sample
eighth_sample s latest_rtt min_rtt r p =
    let eight : (s.rtt_sample_count + 1) % 2 ^ 32 == hybrid_start_min_samples ≡ true =
      ground (arith, r.count) in
    ap
      (λ b.
        b
        || ((s.rtt_sample_count + 1) % 2 ^ 32 == hybrid_start_min_samples
            && ltb (min_rtt + rtt_increase_threshold min_rtt)
                (take_sample s latest_rtt min_rtt).current_min_rtt))
      r.open_yet
    ∙ ap
        (λ b.
          b
          && ltb (min_rtt + rtt_increase_threshold min_rtt)
              (take_sample s latest_rtt min_rtt).current_min_rtt)
        eight
    ∙ ap (ltb (min_rtt + rtt_increase_threshold min_rtt))
        (sample_min s 7 latest_rtt min_rtt r (omega arith) p)

eighth-IsRunning :
    (s : HybridSlowStart) (latest_rtt min_rtt : ℕ)
    → IsRunning s 7
    → (take_sample s latest_rtt min_rtt).hystart_found ≡ false
    → IsRunning (take_sample s latest_rtt min_rtt) 8
unfolding take_sample
eighth-IsRunning s latest_rtt min_rtt r e = record {
  started = r.started;
  count = omega (arith, r.count);
  open_yet = e;
}

-- From the second sample of a round on.
rest_of_round :
    (window n : ℕ) (before later : List (ℕ × ℕ)) (last : ℕ × ℕ) (s : HybridSlowStart)
    → IsRunning s n
    → n + length before ≡ 7
    → 1 ≤ s.current_min_rtt
    → All IsPositive before
    → 8 + length later < 2 ^ 32
    → (sampled window (before ++ (last ∷ later)) s).hystart_found
      ≡ ltb
          (last.1 + rtt_increase_threshold last.1)
          (min (smallest s.current_min_rtt before) last.0)
rest_of_round window n [] later last s r c p a b =
    let seven : IsRunning s 7 = subst (IsRunning s) (omega (arith, c)) r in
    let next : HybridSlowStart = take_sample s last.0 last.1 in
    let found = eighth_sample s last.0 last.1 seven p in
    ap (λ z. (sampled window later z).hystart_found) (running_step s 7 window last.0 last.1 seven)
    ∙ elim (Bool-cases next.hystart_found) [
      | inl e ↦ found_stays window later next e ∙ sym e ∙ found
      | inr e ↦
          late_samples window 8 later next (eighth-IsRunning s last.0 last.1 seven e) (omega arith)
            (omega (arith, b))
          ∙ sym e
          ∙ found
    ]
rest_of_round window n (x ∷ rest) later last s r c p a b =
    let next : HybridSlowStart = take_sample s x.0 x.1 in
    let least = sample_min s n x.0 x.1 r (omega (arith, c)) p in
    ap (λ z. (sampled window (rest ++ (last ∷ later)) z).hystart_found)
      (running_step s n window x.0 x.1 r)
    ∙ rest_of_round window (n + 1) rest later last next
        (other_sample s n x.0 x.1 r (λ e. omega (arith, e, c)) (omega (arith, c)))
        (omega (arith, c)) (omega (arith, least, p, a.0)) a.1 b
    ∙ ap (λ m. ltb (last.1 + rtt_increase_threshold last.1) (min (smallest m rest) last.0)) least

-- A round of slow start that begins with a call of ShouldExitSlowStart, where no increase has been found
-- before: after the eighth of its round-trip times, all of them positive, an increase is found where the
-- least of the eight is more than the session's least one and the threshold for it together, and so it
-- stays over fewer than 2 ^ 32 - 8 later calls.
pub sampled-round :
    (window : ℕ) (first last : ℕ × ℕ) (before later : List (ℕ × ℕ)) (s : HybridSlowStart)
    → s.started ≡ false
    → s.hystart_found ≡ false
    → All IsPositive (first ∷ before)
    → length before ≡ 6
    → 8 + length later < 2 ^ 32
    → (sampled window (first ∷ (before ++ (last ∷ later))) s).hystart_found
      ≡ ltb (last.1 + rtt_increase_threshold last.1) (min (smallest first.0 before) last.0)
unfolding should_exit_slow_start start_receive_round take_sample
sampled-round window first last before later s n f a c b =
    let started : HybridSlowStart = start_receive_round s s.last_sent_packet_number in
    let next : HybridSlowStart = take_sample started first.0 first.1 in
    let step : (should_exit_slow_start s first.0 first.1 window).1 ≡ next = ground arith in
    let least : next.current_min_rtt ≡ first.0 = ground arith in
    ap (λ z. (sampled window (before ++ (last ∷ later)) z).hystart_found) step
    ∙ rest_of_round window 1 before later last next
        record { started = refl; count = ground arith; open_yet = ground arith } (omega (arith, c))
        (omega (arith, least, a.0)) a.1 b
    ∙ ap (λ m. ltb (last.1 + rtt_increase_threshold last.1) (min (smallest m before) last.0)) least
