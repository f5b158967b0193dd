-- ===== src/Congestion/RttStats.antt =====
-- quic-go/congestion/rtt_stats.go: the round-trip times of a path. Durations and times are nanoseconds; a
-- negative duration counts as 0, and the float32 arithmetic is a parameter.
pub mod Order
pub mod Reachable
use mpquic_sbd.Base.{
  ℕ, ◌+◌, ◌-◌, ◌*◌, ◌/◌, ◌^◌, Bool, true, false, ◌||◌, ltb, leb, ◌==◌, max, if◌then◌else◌,
}
use mpquic_sbd.Congestion.Prr.{inf_duration}

abbrev pub initial_rtt_us : ℕ
initial_rtt_us = 100 * 1000

pub record RttSample : Type 0 where
  pub rtt : ℕ
  pub time : ℕ

abbrev pub no_sample : RttSample
no_sample = record { rtt = 0; time = 0 }

pub record RttStats : Type 0 where
  pub initial_rtt : ℕ
  pub recent_min_rtt_window : ℕ
  pub min_rtt : ℕ
  pub latest_rtt : ℕ
  pub smoothed_rtt : ℕ
  pub mean_deviation : ℕ
  pub num_min_rtt_samples_remaining : ℕ
  pub new_min_rtt : RttSample
  pub recent_min_rtt : RttSample
  pub half_window_rtt : RttSample
  pub quarter_window_rtt : RttSample

-- What is computed with float32: half and a quarter of a window, and the weighted means.
pub record RttArithmetic : Type 0 where
  pub half_window : ℕ → ℕ
  pub quarter_window : ℕ → ℕ
  pub mean_deviation_with : ℕ → ℕ → ℕ
  pub smoothed_with : ℕ → ℕ → ℕ

unfoldable pub new_rtt_stats : RttStats
new_rtt_stats = record {
  initial_rtt = initial_rtt_us;
  recent_min_rtt_window = inf_duration;
  min_rtt = 0;
  latest_rtt = 0;
  smoothed_rtt = 0;
  mean_deviation = 0;
  num_min_rtt_samples_remaining = 0;
  new_min_rtt = no_sample;
  recent_min_rtt = no_sample;
  half_window_rtt = no_sample;
  quarter_window_rtt = no_sample;
}

unfoldable pub set_recent_min_rtt_window : RttStats → ℕ → RttStats
set_recent_min_rtt_window r window = record r { recent_min_rtt_window = window }

-- The samples that SampleNewRecentMinRTT has asked for.
unfoldable pub count_new_min : RttStats → RttSample → RttStats
count_new_min r s =
    let least : RttSample =
      if (r.new_min_rtt.rtt == 0) || leb s.rtt r.new_min_rtt.rtt then s else r.new_min_rtt in
    let left : ℕ = r.num_min_rtt_samples_remaining - 1 in
    if r.num_min_rtt_samples_remaining == 0
    then r
    else if left == 0
    then record r {
      num_min_rtt_samples_remaining = left;
      new_min_rtt = least;
      recent_min_rtt = least;
      half_window_rtt = least;
      quarter_window_rtt = least;
    }
    else record r { num_min_rtt_samples_remaining = left; new_min_rtt = least }

-- The three recent samples.
unfoldable pub note_recent : RttStats → RttSample → RttStats
note_recent r s =
    if (r.recent_min_rtt.rtt == 0) || leb s.rtt r.recent_min_rtt.rtt
    then record r { recent_min_rtt = s; half_window_rtt = s; quarter_window_rtt = s }
    else if leb s.rtt r.half_window_rtt.rtt
    then record r { half_window_rtt = s; quarter_window_rtt = s }
    else if leb s.rtt r.quarter_window_rtt.rtt
    then record r { quarter_window_rtt = s }
    else r

abbrev pub absolute_difference : ℕ → ℕ → ℕ
absolute_difference a b = if ltb a b then b - a else a - b

unfoldable pub expire_smoothed_metrics : RttStats → RttStats
expire_smoothed_metrics r = record r {
  mean_deviation = max r.mean_deviation (absolute_difference r.smoothed_rtt r.latest_rtt);
  smoothed_rtt = max r.smoothed_rtt r.latest_rtt;
}

unfoldable pub update_session_rtt : RttStats → ℕ → RttStats
update_session_rtt r smoothed = record r { smoothed_rtt = smoothed }

unfoldable pub sample_new_recent_min_rtt : RttStats → ℕ → RttStats
sample_new_recent_min_rtt r num_samples = record r {
  num_min_rtt_samples_remaining = num_samples;
  new_min_rtt = no_sample;
}

-- It leaves `new_min_rtt` as it is.
unfoldable pub rtt_on_connection_migration : RttStats → RttStats
rtt_on_connection_migration r = record new_rtt_stats { new_min_rtt = r.new_min_rtt }

module _ (arithmetic : RttArithmetic) where
  -- Old samples expire, where `s` is the new one.
  unfoldable pub expire_old : RttStats → RttSample → RttStats
  expire_old r s =
      if ltb (r.recent_min_rtt.time + r.recent_min_rtt_window) s.time
      then record r {
        recent_min_rtt = r.half_window_rtt;
        half_window_rtt = r.quarter_window_rtt;
        quarter_window_rtt = s;
      }
      else if ltb (r.half_window_rtt.time + arithmetic.half_window r.recent_min_rtt_window) s.time
      then record r { half_window_rtt = r.quarter_window_rtt; quarter_window_rtt = s }
      else if ltb (r.quarter_window_rtt.time + arithmetic.quarter_window r.recent_min_rtt_window)
          s.time
      then record r { quarter_window_rtt = s }
      else r

  unfoldable pub update_recent_min_rtt : RttStats → RttSample → RttStats
  update_recent_min_rtt r s = expire_old (note_recent (count_new_min r s) s) s

  unfoldable pub smooth : RttStats → ℕ → RttStats
  smooth r sample =
      if r.smoothed_rtt == 0
      then record r { latest_rtt = sample; smoothed_rtt = sample; mean_deviation = sample / 2 }
      else record r {
        latest_rtt = sample;
        mean_deviation =
            arithmetic.mean_deviation_with r.mean_deviation
              (absolute_difference r.smoothed_rtt sample);
        smoothed_rtt = arithmetic.smoothed_with r.smoothed_rtt sample;
      }

  unfoldable pub update_rtt : RttStats → ℕ → ℕ → ℕ → RttStats
  update_rtt r send_delta ack_delay now =
      let first : RttStats = record r {
        min_rtt = if (r.min_rtt == 0) || ltb send_delta r.min_rtt then send_delta else r.min_rtt;
      } in
      let recent : RttStats = update_recent_min_rtt first record { rtt = send_delta; time = now } in
      if (send_delta == inf_duration) || (send_delta == 0)
      then r
      else smooth recent (if ltb ack_delay send_delta then send_delta - ack_delay else send_delta)
