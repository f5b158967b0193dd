-- ===== src/Streams/Open/Visited.antt =====
-- What holds of the callback's state holds after an iteration over the streams.
use mpquic_sbd.Base.{
  ℕ, zero, suc, ◌+◌, ◌≡◌, refl, Bool, true, false, ◌||◌, List, [], ◌∷◌, Result, ok, err, ◌⊎◌, inl,
  inr, Option-cases, Bool-cases, ◌==◌, get_elem?, ◌%◌,
}
use mpquic_sbd.Streams.Open.{StreamType, StreamsMap, StreamsError, find_stream}
use mpquic_sbd.Streams.Open.Iteration.{
  stops, iterate_func, iterate_from, round_robin_over, round_robin_iterate,
}

called-cases :
    (r : Result StreamsError Bool)
    → ((e : StreamsError) × (r ≡ err e)) ⊎ ((r ≡ ok true) ⊎ (r ≡ ok false))
called-cases (err e) = inl (e, refl)
called-cases (ok true) = inr (inl refl)
called-cases (ok false) = inr (inr refl)

module _ (t : StreamType) {World : Type 0}
    (fn : t.Stream → World → Result StreamsError Bool × World) (P : World → Type 0)
    (kept : (s : t.Stream) (w : World) → P w → P (fn s w).1) where
  iterate_func-keeps :
      (m : StreamsMap t) (id : ℕ) (w : World) → P w → P (iterate_func t fn m id w).1
  unfolding iterate_func
  iterate_func-keeps m id w p = elim (Option-cases (find_stream id m.streams)) [
    | inl e ↦ rw (iterate_func, e) p
    | inr (s, e) ↦ rw (iterate_func, e) (kept s w p)
  ]

  iterate_from-keeps :
      (num start i n : ℕ) (m : StreamsMap t) (w : World)
      → P w
      → P (iterate_from t fn num start i n m w).world
  unfolding iterate_from
  iterate_from-keeps num start i zero m w p = p
  iterate_from-keeps num start i (suc n) m w p =
      elim (Option-cases (get_elem? m.open_streams ((i + start) % num))) [
        | inl e ↦ rw (iterate_from, e) p
        | inr (id, e) ↦
            rw (iterate_from, e)
              (elim (Bool-cases (id == 1 || id == 3)) [
                | inl own ↦ rw (iterate_from, own) (iterate_from-keeps num start (i + 1) n m w p)
                | inr own ↦
                    rw (iterate_from, own)
                      (elim (called-cases (iterate_func t fn m id w).0) [
                        | inl (e, failed) ↦ rw (iterate_from, failed) (iterate_func-keeps m id w p)
                        | inr (inl more) ↦
                            rw (iterate_from, more)
                              (iterate_from-keeps num start (i + 1) n _ _
                                (iterate_func-keeps m id w p))
                        | inr (inr last) ↦ rw (iterate_from, last) (iterate_func-keeps m id w p)
                      ])
              ])
      ]

  round_robin_over-keeps :
      (ids : List ℕ) (m : StreamsMap t) (w : World) → P w → P (round_robin_over t fn ids m w).world
  unfolding round_robin_over
  round_robin_over-keeps [] m w p = iterate_from-keeps _ _ 0 _ m w p
  round_robin_over-keeps (id ∷ rest) m w p =
      elim (Option-cases (stops (iterate_func t fn m id w).0)) [
        | inl e ↦
            rw (round_robin_over, e) (round_robin_over-keeps rest m _ (iterate_func-keeps m id w p))
        | inr (failed, e) ↦ rw (round_robin_over, e) (iterate_func-keeps m id w p)
      ]

  pub round_robin_iterate-keeps :
      (m : StreamsMap t) (w : World) → P w → P (round_robin_iterate t fn m w).world
  unfolding round_robin_iterate
  round_robin_iterate-keeps m w p = round_robin_over-keeps (1 ∷ 3 ∷ []) m w p
