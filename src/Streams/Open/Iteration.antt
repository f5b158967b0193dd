-- ===== src/Streams/Open/Iteration.antt =====
-- quic-go/streams_map.go: Iterate and RoundRobinIterate.
use mpquic_sbd.Base.{
  ℕ, zero, suc, ◌+◌, ◌%◌, Bool, true, false, ◌||◌, List, [], ◌∷◌, Option, none, some, Result, ok,
  err, ◌==◌, length, get_elem?,
}
use mpquic_sbd.Streams.Open.{
  StreamType, StreamsMap, StreamsError, map_access, index_out_of_range, find_stream,
}

-- The callback works on what the streams refer to, `World`.
-- Whether one of the first two calls ends the iteration, and with what error.
unfoldable pub stops : Result StreamsError Bool → Option (Option StreamsError)
stops (ok true) = none
stops (ok false) = some none
stops (err map_access) = none
stops (err e) = some (some e)

module _ (t : StreamType) {World : Type 0}
    (fn : t.Stream → World → Result StreamsError Bool × World) where
  unfoldable pub iterate_func : StreamsMap t → ℕ → World → Result StreamsError Bool × World
  iterate_func m id w = elim (find_stream id m.streams) [
    | none ↦ (err map_access, w)
    | some s ↦ fn s w
  ]

  -- An iteration stops with an error, or at a stream whose callback says so, or at the end.
  pub record Iterated : Type 0 where
    pub error : Option StreamsError
    pub after : StreamsMap t
    pub world : World

  abbrev pub ends : Option StreamsError → StreamsMap t → World → Iterated
  ends e m w = record { error = e; after = m; world = w }

  unfoldable pub iterate_over : StreamsMap t → List ℕ → World → Iterated
  iterate_over m [] w = ends none m w
  iterate_over m (id ∷ rest) w =
      let called = iterate_func m id w in
      elim called.0 [
        | err e ↦ ends (some e) m called.1
        | ok true ↦ iterate_over m rest called.1
        | ok false ↦ ends none m called.1
      ]

  unfoldable pub iterate : StreamsMap t → World → Iterated
  iterate m w = iterate_over m m.open_streams w

  abbrev turned : StreamsMap t → ℕ → StreamsMap t
  turned m num = record m { round_robin_index = (m.round_robin_index + 1) % num }

  -- The rounds from `i` on.
  unfoldable pub iterate_from : ℕ → ℕ → ℕ → ℕ → StreamsMap t → World → Iterated
  iterate_from num start i zero m w = ends none m w
  iterate_from num start i (suc n) m w = elim (get_elem? m.open_streams ((i + start) % num)) [
    | none ↦ ends (some index_out_of_range) m w
    | some id ↦ elim (id == 1 || id == 3) [
      | true ↦ iterate_from num start (i + 1) n m w
      | false ↦
          let called = iterate_func m id w in
          elim called.0 [
            | err e ↦ ends (some e) m called.1
            | ok true ↦ iterate_from num start (i + 1) n (turned m num) called.1
            | ok false ↦ ends none (turned m num) called.1
          ]
    ]
  ]

  -- The crypto stream and the header stream come first, where they are open.
  unfoldable pub round_robin_over : List ℕ → StreamsMap t → World → Iterated
  round_robin_over [] m w =
      iterate_from (length m.streams) m.round_robin_index 0 (length m.streams) m w
  round_robin_over (id ∷ rest) m w =
      let called = iterate_func m id w in
      elim (stops called.0) [ none ↦ round_robin_over rest m called.1 | some e ↦ ends e m called.1 ]

  unfoldable pub round_robin_iterate : StreamsMap t → World → Iterated
  round_robin_iterate = round_robin_over (1 ∷ 3 ∷ [])
