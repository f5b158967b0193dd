-- ===== src/Congestion/RttStats/Reachable.antt =====
-- quic-go/congestion/rtt_stats.go: the minima in every state that the calls reach.
use mpquic_sbd.Base.{
  ℕ, ◌≤◌, ◌≡◌, ◌⊎◌, refl, inl, inr, Bool, not, ◌||◌, List, [], ◌∷◌, ltb, ◌==◌, min, if◌then◌else◌,
  Bool-cases, arith,
}
use mpquic_sbd.Congestion.Prr.{inf_duration}
use mpquic_sbd.Congestion.RttStats.{
  RttStats, RttArithmetic, new_rtt_stats, set_recent_min_rtt_window, expire_smoothed_metrics,
  update_session_rtt, sample_new_recent_min_rtt, rtt_on_connection_migration, update_rtt,
}
use mpquic_sbd.Congestion.RttStats.Order.{
  IsSampling, IsReady, IsSettled, smooth-IsSettled, update_recent_min_rtt-IsSettled,
}

-- The least of the samples.
abbrev pub least_of : List ℕ → ℕ
least_of [] = 0
least_of (x ∷ []) = x
least_of (x ∷ y ∷ rest) = min x (least_of (y ∷ rest))

abbrev pub is_valid : ℕ → Bool
is_valid send_delta = not ((send_delta == inf_duration) || (send_delta == 0))

abbrev pub with_sample : ℕ → List ℕ → List ℕ
with_sample send_delta l = if is_valid send_delta then send_delta ∷ l else l

-- The calls, with the valid samples since the last migration.
module _ (arithmetic : RttArithmetic) where
  pub data Reach : List ℕ → RttStats → Type 0 where
    starts : Reach [] new_rtt_stats
    updates :
        {l : List ℕ} {r : RttStats} (send_delta ack_delay now : ℕ)
        → Reach l r
        → Reach (with_sample send_delta l) (update_rtt arithmetic r send_delta ack_delay now)
    samples_new :
        {l : List ℕ} {r : RttStats} (n : ℕ) → Reach l r → Reach l (sample_new_recent_min_rtt r n)
    sets_window :
        {l : List ℕ} {r : RttStats} (n : ℕ) → Reach l r → Reach l (set_recent_min_rtt_window r n)
    expires : {l : List ℕ} {r : RttStats} → Reach l r → Reach l (expire_smoothed_metrics r)
    sets_smoothed :
        {l : List ℕ} {r : RttStats} (n : ℕ) → Reach l r → Reach l (update_session_rtt r n)
    migrates : {l : List ℕ} {r : RttStats} → Reach l r → Reach [] (rtt_on_connection_migration r)

-- The minima of the samples: that of all, and the recent ones.
abbrev pub AreOrdered : List ℕ → RttStats → Type 0
AreOrdered [] r = (r.min_rtt ≡ 0) × (r.recent_min_rtt.rtt ≡ 0)
AreOrdered (x ∷ l) r =
    (r.min_rtt ≡ least_of (x ∷ l))
    × ((1 ≤ r.min_rtt)
        × ((r.min_rtt ≤ r.recent_min_rtt.rtt)
            × ((r.recent_min_rtt.rtt ≤ r.half_window_rtt.rtt)
                × (r.half_window_rtt.rtt ≤ r.quarter_window_rtt.rtt))))

-- What the samples asked for have given is none of before the first sample.
AreSampling : List ℕ → RttStats → Type 0
AreSampling [] r = (r.num_min_rtt_samples_remaining ≡ 0) ⊎ (r.new_min_rtt.rtt ≡ 0)
AreSampling (x ∷ l) r = IsSampling (least_of (x ∷ l)) r

record IsTracked (l : List ℕ) (r : RttStats) : Type 0 where
  ordered : AreOrdered l r
  sampling : AreSampling l r

settled-IsTracked :
    (x : ℕ) (l : List ℕ) (r : RttStats) → IsSettled (least_of (x ∷ l)) r → IsTracked (x ∷ l) r
unfolding AreSampling
settled-IsTracked x l r k = record {
  ordered = (
    k.ordered.min_rtt,
    (
      omega (arith, k.ordered.min_rtt, k.ordered.positive),
      (omega (arith, k.ordered.min_rtt, k.ordered.recent), (k.ordered.half, k.ordered.quarter)),
    ),
  );
  sampling = k.sampling;
}

-- A valid sample, and the minimum of all with it.
first_step :
    (x : ℕ) (l : List ℕ) (r : RttStats)
    → 1 ≤ x
    → IsTracked l r
    → IsReady
        (least_of (x ∷ l))
        (record r { min_rtt = if (r.min_rtt == 0) || ltb x r.min_rtt then x else r.min_rtt })
      × (least_of (x ∷ l) ≤ x)
unfolding AreSampling
first_step x [] r h k = (
  record {
    positive = h;
    min_rtt = ground (arith, k.ordered.0);
    recents = inl k.ordered.1;
    sampling = elim k.sampling [ inl z ↦ inl z | inr z ↦ inr (inl z) ];
  },
  omega arith,
)
first_step x (y ∷ l) r h k =
    let (same, (positive, (recent, (half, quarter)))) = k.ordered in
    (
      record {
        positive = omega (arith, h, same, positive);
        min_rtt = ground (arith, same, positive);
        recents = inr (omega (arith, same, recent), (half, quarter));
        sampling = elim k.sampling [
          | inl z ↦ inl z
          | inr (inl z) ↦ inr (inl z)
          | inr (inr g) ↦ inr (inr (omega (arith, g)))
        ];
      },
      omega arith,
    )

update_rtt-IsTracked :
    (arithmetic : RttArithmetic) (l : List ℕ) (r : RttStats) (send_delta ack_delay now : ℕ)
    → IsTracked l r
    → IsTracked (with_sample send_delta l) (update_rtt arithmetic r send_delta ack_delay now)
unfolding update_rtt
update_rtt-IsTracked arithmetic l r send_delta ack_delay now k =
    elim (Bool-cases ((send_delta == inf_duration) || (send_delta == 0))) [
      | inl t ↦ rw (update_rtt, t) k
      | inr t ↦
          let step = first_step send_delta l r (ground arith) k in
          rw (update_rtt, t)
            (settled-IsTracked send_delta l _ (
              smooth-IsSettled arithmetic (least_of (send_delta ∷ l)) _ _ (
                update_recent_min_rtt-IsSettled arithmetic (least_of (send_delta ∷ l)) _
                  record { rtt = send_delta; time = now } step.0 step.1)))
    ]

-- Another state with the same minima.
same-IsTracked :
    (l : List ℕ) (r : RttStats) (window latest smoothed deviation : ℕ)
    → IsTracked l r
    → IsTracked l (record r {
      recent_min_rtt_window = window;
      latest_rtt = latest;
      smoothed_rtt = smoothed;
      mean_deviation = deviation;
    })
unfolding AreSampling
same-IsTracked [] r window latest smoothed deviation k = record {
  ordered = k.ordered;
  sampling = k.sampling;
}
same-IsTracked (x ∷ l) r window latest smoothed deviation k = record {
  ordered = k.ordered;
  sampling = k.sampling;
}

new_samples-IsTracked :
    (l : List ℕ) (r : RttStats) (n : ℕ)
    → IsTracked l r
    → IsTracked l (sample_new_recent_min_rtt r n)
unfolding AreSampling sample_new_recent_min_rtt
new_samples-IsTracked [] r n k = record { ordered = k.ordered; sampling = inr refl }
new_samples-IsTracked (x ∷ l) r n k = record { ordered = k.ordered; sampling = inr (inl refl) }

Reach-IsTracked :
    (arithmetic : RttArithmetic) {l : List ℕ} {r : RttStats} → Reach arithmetic l r → IsTracked l r
unfolding new_rtt_stats rtt_on_connection_migration set_recent_min_rtt_window
    expire_smoothed_metrics update_session_rtt AreSampling
Reach-IsTracked arithmetic starts = record { ordered = (refl, refl); sampling = inl refl }
Reach-IsTracked arithmetic (updates {l} {r} send_delta ack_delay now run) =
    update_rtt-IsTracked arithmetic l r send_delta ack_delay now (Reach-IsTracked arithmetic run)
Reach-IsTracked arithmetic (samples_new {l} {r} n run) =
    new_samples-IsTracked l r n (Reach-IsTracked arithmetic run)
Reach-IsTracked arithmetic (sets_window {l} {r} n run) =
    same-IsTracked l r _ _ _ _ (Reach-IsTracked arithmetic run)
Reach-IsTracked arithmetic (expires {l} {r} run) =
    same-IsTracked l r _ _ _ _ (Reach-IsTracked arithmetic run)
Reach-IsTracked arithmetic (sets_smoothed {l} {r} n run) =
    same-IsTracked l r _ _ _ _ (Reach-IsTracked arithmetic run)
Reach-IsTracked arithmetic (migrates run) = record { ordered = (refl, refl); sampling = inl refl }

-- In every state that the calls reach, the minimum is the least of the valid samples since the last
-- migration, and at most the recent minimum, which is at most that of half the window, which is at most
-- that of a quarter of it; before the first sample the first two are 0.
pub Reach-AreOrdered :
    (arithmetic : RttArithmetic) {l : List ℕ} {r : RttStats} → Reach arithmetic l r → AreOrdered l r
Reach-AreOrdered arithmetic run = (Reach-IsTracked arithmetic run).ordered
