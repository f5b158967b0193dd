-- ===== src/Flow/Controller/Windows.antt =====
-- The windows of one controller: what is granted never shrinks, and what is sent stays within.
use mpquic_sbd.Base.{ℕ, ◌+◌, ◌/◌, ◌^◌, ◌≤◌, ◌<◌, ◌≡◌, inl, inr, ltb, arith, Option-cases}
use mpquic_sbd.Flow.Controller.{
  FlowController, RoundTrips, maybe_adjust_window_increment, adjusted_increment,
  maybe_update_window,
}

-- Sizes that cannot wrap, and an increment within its maximum.
pub record IsValid (c : FlowController) : Type 0 where
  pub read_within : c.bytes_read ≤ c.receive_window
  pub window_fits : c.receive_window < 2 ^ 62
  pub increment_pos : 0 < c.receive_window_increment
  pub increment_within : c.receive_window_increment ≤ c.max_receive_window_increment
  pub max_fits : c.max_receive_window_increment < 2 ^ 62

adjusted_increment_bounds :
    (c : FlowController) (rtts : RoundTrips) (last now : ℕ)
    → IsValid c
    → (c.receive_window_increment ≤ adjusted_increment c rtts last now)
      × (adjusted_increment c rtts last now ≤ c.max_receive_window_increment)
unfolding adjusted_increment
adjusted_increment_bounds c rtts last now v = ground arith

maybe_adjust_bounds :
    (c : FlowController) (rtts : RoundTrips) (now : ℕ)
    → IsValid c
    → let a = maybe_adjust_window_increment c rtts now in
      (c.receive_window_increment ≤ a.receive_window_increment)
      × (a.receive_window_increment ≤ c.max_receive_window_increment)
unfolding maybe_adjust_window_increment
maybe_adjust_bounds c rtts now v = elim (Option-cases c.last_window_update_time) [
  | inl e ↦ ground (arith, e, v.increment_within)
  | inr (last, e) ↦ ground (arith, e, adjusted_increment_bounds c rtts last now v)
]

-- For a valid controller MaybeUpdateWindow never takes back what was granted: the receive window does
-- not shrink, it is the offset that is returned, it grows exactly if an update is necessary, and
-- afterwards at least half an increment is left to read.
pub maybe_update_window_grows :
    (c : FlowController) (rtts : RoundTrips) (now : ℕ)
    → IsValid c
    → let r = maybe_update_window c rtts now in
      (c.receive_window ≤ r.controller.receive_window)
      × (r.new_offset ≡ r.controller.receive_window)
      × (r.necessary ≡ ltb c.receive_window r.controller.receive_window)
      × (c.bytes_read + r.controller.receive_window_increment / 2 ≤ r.controller.receive_window)
unfolding maybe_update_window
maybe_update_window_grows c rtts now v = ground (arith, maybe_adjust_bounds c rtts now v)
