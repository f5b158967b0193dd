-- ===== src/Congestion/RttStats/Order.antt =====
-- quic-go/congestion/rtt_stats.go: the minima are in their order.
use mpquic_sbd.Base.{
  ℕ, ◌+◌, ◌-◌, ◌≤◌, ◌≡◌, ◌⊎◌, refl, inl, inr, Bool, true, false, ◌||◌, ltb, leb, ◌==◌,
  if◌then◌else◌, Bool-cases, arith,
}
use mpquic_sbd.Congestion.RttStats.{
  RttSample, RttStats, RttArithmetic, count_new_min, note_recent, expire_old, update_recent_min_rtt,
  smooth,
}

-- The minimum since there is one, and the recent ones, which look back less and less far.
pub record IsOrdered (least : ℕ) (r : RttStats) : Type 0 where
  pub positive : 1 ≤ least
  pub min_rtt : r.min_rtt ≡ least
  pub recent : least ≤ r.recent_min_rtt.rtt
  pub half : r.recent_min_rtt.rtt ≤ r.half_window_rtt.rtt
  pub quarter : r.half_window_rtt.rtt ≤ r.quarter_window_rtt.rtt

-- What the samples asked for have given so far.
abbrev pub IsSampling : ℕ → RttStats → Type 0
IsSampling least r =
    (r.num_min_rtt_samples_remaining ≡ 0) ⊎ ((r.new_min_rtt.rtt ≡ 0) ⊎ (least ≤ r.new_min_rtt.rtt))

-- The state after the first two steps, on a sample that is not below the least one.
record IsNoted (least : ℕ) (r : RttStats) (s : RttSample) : Type 0 where
  ordered : IsOrdered least r
  sampling : IsSampling least r
  below : r.quarter_window_rtt.rtt ≤ s.rtt

-- No sample has been noted yet, or they are in their order.
pub record IsReady (least : ℕ) (r : RttStats) : Type 0 where
  pub positive : 1 ≤ least
  pub min_rtt : r.min_rtt ≡ least
  pub recents :
      (r.recent_min_rtt.rtt ≡ 0)
      ⊎ ((least ≤ r.recent_min_rtt.rtt)
          × ((r.recent_min_rtt.rtt ≤ r.half_window_rtt.rtt)
              × (r.half_window_rtt.rtt ≤ r.quarter_window_rtt.rtt)))
  pub sampling : IsSampling least r

noted :
    (least : ℕ) (r : RttStats) (s recent half quarter : RttSample)
    → IsReady least r
    → least ≤ recent.rtt
    → recent.rtt ≤ half.rtt
    → half.rtt ≤ quarter.rtt
    → quarter.rtt ≤ s.rtt
    → IsNoted least
        (record r { recent_min_rtt = recent; half_window_rtt = half; quarter_window_rtt = quarter })
        s
noted least r s recent half quarter k a b c d = record {
  ordered = record {
    positive = k.positive;
    min_rtt = k.min_rtt;
    recent = a;
    half = b;
    quarter = c;
  };
  sampling = k.sampling;
  below = d;
}

note_recent-IsNoted :
    (least : ℕ) (r : RttStats) (s : RttSample)
    → IsReady least r
    → least ≤ s.rtt
    → IsNoted least (note_recent r s) s
unfolding note_recent
note_recent-IsNoted least r s k h =
    elim (Bool-cases ((r.recent_min_rtt.rtt == 0) || leb s.rtt r.recent_min_rtt.rtt)) [
      | inl t ↦
          rw (note_recent, t) (noted least r s s s s k h (omega arith) (omega arith) (omega arith))
      | inr t ↦ elim k.recents [
        | inl none_yet ↦ absurd (ground arith)
        | inr (a, (b, c)) ↦ elim (Bool-cases (leb s.rtt r.half_window_rtt.rtt)) [
          | inl u ↦
              rw (note_recent, t, u)
                (noted least r s r.recent_min_rtt s s k a (ground arith) (omega arith)
                  (omega arith))
          | inr u ↦ elim (Bool-cases (leb s.rtt r.quarter_window_rtt.rtt)) [
            | inl v ↦
                rw (note_recent, t, u, v)
                  (noted least r s r.recent_min_rtt r.half_window_rtt s k a b (ground arith)
                    (omega arith))
            | inr v ↦
                rw (note_recent, t, u, v)
                  (noted least r s r.recent_min_rtt r.half_window_rtt r.quarter_window_rtt k a b c
                    (ground arith))
          ]
        ]
      ]
    ]

either-least :
    (b : Bool) (least : ℕ) (s t : RttSample)
    → least ≤ s.rtt
    → (b ≡ false → least ≤ t.rtt)
    → least ≤ (if b then s else t).rtt
either-least true least s t h g = h
either-least false least s t h g = g refl

-- The least of the samples asked for is not below the least one of all.
new_least :
    (least : ℕ) (r : RttStats) (s : RttSample)
    → ((r.new_min_rtt.rtt ≡ 0) ⊎ (least ≤ r.new_min_rtt.rtt))
    → least ≤ s.rtt
    → least
      ≤ (if (r.new_min_rtt.rtt == 0) || leb s.rtt r.new_min_rtt.rtt then s else r.new_min_rtt).rtt
new_least least r s k h =
    either-least ((r.new_min_rtt.rtt == 0) || leb s.rtt r.new_min_rtt.rtt) least s r.new_min_rtt h
      (λ e. elim k [ inl z ↦ absurd (ground arith) | inr g ↦ g ])

count_new_min-IsReady :
    (least : ℕ) (r : RttStats) (s : RttSample)
    → IsReady least r
    → least ≤ s.rtt
    → IsReady least (count_new_min r s)
unfolding count_new_min
count_new_min-IsReady least r s k h = elim (Bool-cases (r.num_min_rtt_samples_remaining == 0)) [
  | inl t ↦ rw (count_new_min, t) k
  | inr t ↦ elim k.sampling [
    | inl z ↦ absurd (ground arith)
    | inr g ↦
        let new = new_least least r s g h in
        elim (Bool-cases (r.num_min_rtt_samples_remaining - 1 == 0)) [
          | inl u ↦
              rw (count_new_min, t, u)
                record {
                  positive = k.positive;
                  min_rtt = k.min_rtt;
                  recents = inr (new, (omega arith, omega arith));
                  sampling = inr (inr new);
                }
          | inr u ↦
              rw (count_new_min, t, u)
                record {
                  positive = k.positive;
                  min_rtt = k.min_rtt;
                  recents = k.recents;
                  sampling = inr (inr new);
                }
        ]
  ]
]

pub record IsSettled (least : ℕ) (r : RttStats) : Type 0 where
  pub ordered : IsOrdered least r
  pub sampling : IsSampling least r

either-IsSettled :
    (b : Bool) (least : ℕ) {x y : RttStats}
    → IsSettled least x
    → IsSettled least y
    → IsSettled least (if b then x else y)
either-IsSettled true least h g = h
either-IsSettled false least h g = g

-- The weighted means are apart from the minima.
other_means :
    (least : ℕ) (r : RttStats) (k : IsSettled least r) (latest smoothed deviation : ℕ)
    → IsSettled least
        (record r { latest_rtt = latest; smoothed_rtt = smoothed; mean_deviation = deviation })
other_means least r k latest smoothed deviation = record {
  ordered = record {
    positive = k.ordered.positive;
    min_rtt = k.ordered.min_rtt;
    recent = k.ordered.recent;
    half = k.ordered.half;
    quarter = k.ordered.quarter;
  };
  sampling = k.sampling;
}

module _ (arithmetic : RttArithmetic) where
  in_order :
      (least : ℕ) (r : RttStats) (s recent half quarter : RttSample)
      → IsNoted least r s
      → least ≤ recent.rtt
      → recent.rtt ≤ half.rtt
      → half.rtt ≤ quarter.rtt
      → IsSettled least (record r {
        recent_min_rtt = recent;
        half_window_rtt = half;
        quarter_window_rtt = quarter;
      })
  in_order least r s recent half quarter k a b c = record {
    ordered = record {
      positive = k.ordered.positive;
      min_rtt = k.ordered.min_rtt;
      recent = a;
      half = b;
      quarter = c;
    };
    sampling = k.sampling;
  }

  expire_old-IsSettled :
      (least : ℕ) (r : RttStats) (s : RttSample)
      → IsNoted least r s
      → IsSettled least (expire_old arithmetic r s)
  unfolding expire_old
  expire_old-IsSettled least r s k =
      let a = k.ordered.recent in
      let b = k.ordered.half in
      let c = k.ordered.quarter in
      either-IsSettled (ltb (r.recent_min_rtt.time + r.recent_min_rtt_window) s.time) least
        (in_order least r s r.half_window_rtt r.quarter_window_rtt s k (omega (arith, a, b)) c
          k.below)
        (either-IsSettled
          (ltb (r.half_window_rtt.time + arithmetic.half_window r.recent_min_rtt_window) s.time)
          least
          (in_order least r s r.recent_min_rtt r.quarter_window_rtt s k a (omega (arith, b, c))
            k.below)
          (either-IsSettled
            (ltb (r.quarter_window_rtt.time + arithmetic.quarter_window r.recent_min_rtt_window)
              s.time)
            least
            (in_order least r s r.recent_min_rtt r.half_window_rtt s k a b
              (omega (arith, c, k.below)))
            record { ordered = k.ordered; sampling = k.sampling }))

  pub smooth-IsSettled :
      (least : ℕ) (r : RttStats) (sample : ℕ)
      → IsSettled least r
      → IsSettled least (smooth arithmetic r sample)
  unfolding smooth
  smooth-IsSettled least r sample k =
      either-IsSettled (r.smoothed_rtt == 0) least (other_means least r k _ _ _)
        (other_means least r k _ _ _)

  pub update_recent_min_rtt-IsSettled :
      (least : ℕ) (r : RttStats) (s : RttSample)
      → IsReady least r
      → least ≤ s.rtt
      → IsSettled least (update_recent_min_rtt arithmetic r s)
  unfolding update_recent_min_rtt
  update_recent_min_rtt-IsSettled least r s k h =
      expire_old-IsSettled least (note_recent (count_new_min r s) s) s
        (note_recent-IsNoted least (count_new_min r s) s (count_new_min-IsReady least r s k h) h)
