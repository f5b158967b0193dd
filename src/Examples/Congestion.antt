-- ===== src/Examples/Congestion.antt =====
-- Congestion control at concrete values: a recovery in which one packet is lost, one sent and one
-- acknowledged; a round of slow start; and two samples of round-trip times.
use mpquic_sbd.Base.{ℕ, ◌+◌, ◌≡◌, refl, true, false, List, [], ◌∷◌, ◌++◌, ltb, min, arith}
use mpquic_sbd.Congestion.SlowStart
use mpquic_sbd.Congestion.SlowStart.{HybridSlowStart, rtt_increase_threshold}
use mpquic_sbd.Congestion.SlowStart.Round.{sampled, smallest, sampled-round}
use mpquic_sbd.Congestion.RttStats.{RttStats, RttArithmetic, new_rtt_stats, update_rtt}
use mpquic_sbd.Congestion.RttStats.Reachable
use mpquic_sbd.Congestion.RttStats.Reachable.{Reach, AreOrdered, Reach-AreOrdered}
use mpquic_sbd.Congestion.Prr.{
  PrrSender, prr_on_packet_lost, prr_on_packet_sent, prr_on_packet_acked, time_until_send,
}
use mpquic_sbd.Congestion.Prr.Bound.{Small, Recovery, lost, acked, sent, Bounded, Recovery-Bounded}

abbrev sender : ℕ → ℕ → ℕ → PrrSender
sender bytes_sent delivered acks = record {
  bytes_sent_since_loss = bytes_sent;
  bytes_delivered_since_loss = delivered;
  ack_count_since_loss = acks;
  bytes_in_flight_before_loss = 14600;
}

starts : Recovery 7300 14600 (sender 0 0 0)
unfolding prr_on_packet_lost
starts = lost

starts-Small : Small 7300 (sender 0 0 0)
starts-Small = record {
  sent = omega arith;
  delivered = omega arith;
  acks = omega arith;
  sent_product = omega arith;
  delivered_product = omega arith;
}

sends : Recovery 7300 14600 (sender 1000 0 0)
unfolding prr_on_packet_sent time_until_send
sends = sent 1000 7300 13140 starts starts-Small (omega arith) (omega arith) refl

sends-Small : Small 7300 (sender 1000 0 0)
sends-Small = record {
  sent = omega arith;
  delivered = omega arith;
  acks = omega arith;
  sent_product = omega arith;
  delivered_product = omega arith;
}

recovers : Recovery 7300 14600 (sender 1000 1460 1)
unfolding prr_on_packet_acked
recovers = acked 1460 sends sends-Small (omega arith)

Recovery-Bounded_example : Bounded 7300 (sender 1000 1460 1)
Recovery-Bounded_example = Recovery-Bounded recovers

abbrev slow_start : HybridSlowStart
slow_start = record {
  end_packet_number = 0;
  last_sent_packet_number = 10;
  started = false;
  current_min_rtt = 0;
  rtt_sample_count = 0;
  hystart_found = false;
}

abbrev sample : ℕ × ℕ
sample = (50_000_000, 40_000_000)

abbrev six_samples : List (ℕ × ℕ)
six_samples = sample ∷ sample ∷ sample ∷ sample ∷ sample ∷ sample ∷ []

-- An increase from 40 to 50 ms is above the threshold of 5 ms.
increase_found :
    (sampled 20 (sample ∷ (six_samples ++ (sample ∷ []))) slow_start).hystart_found ≡ true
unfolding SlowStart.should_exit_slow_start SlowStart.start_receive_round SlowStart.take_sample
increase_found = refl

sampled-round_example :
    (sampled 20 (sample ∷ (six_samples ++ (sample ∷ []))) slow_start).hystart_found
    ≡ ltb
        (40_000_000 + rtt_increase_threshold 40_000_000)
        (min (smallest 50_000_000 six_samples) 50_000_000)
sampled-round_example =
    sampled-round 20 sample sample six_samples [] slow_start refl refl
      (
        omega arith,
        (
          omega arith,
          (omega arith, (omega arith, (omega arith, (omega arith, (omega arith, tt))))),
        ),
      )
      refl (omega arith)

-- Means that are not weighted.
abbrev arithmetic : RttArithmetic
arithmetic = record {
  half_window = λ w. w;
  quarter_window = λ w. w;
  mean_deviation_with = λ d x. x;
  smoothed_with = λ s x. x;
}

abbrev two_samples : RttStats
two_samples = update_rtt arithmetic (update_rtt arithmetic new_rtt_stats 30 5 1000) 20 5 2000

Reach-AreOrdered_example : AreOrdered (20 ∷ 30 ∷ []) two_samples
Reach-AreOrdered_example =
    Reach-AreOrdered arithmetic
      (Reachable.updates 20 5 2000 (Reachable.updates 30 5 1000 Reachable.starts))
