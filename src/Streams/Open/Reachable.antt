-- ===== src/Streams/Open/Reachable.antt =====
-- The calls on the map of streams, from a new one on.
use mpquic_sbd.Base.{
  ℕ, zero, suc, ◌+◌, ◌%◌, ◌^◌, ◌<◌, ◌≡◌, refl, sym, ◌∙◌, ap, subst, inl, inr, Bool, true, false,
  ◌||◌, List, [], ◌∷◌, Option, none, some, Result, ok, err, ◌==◌, length, get_elem?, Bool-cases,
  Option-cases, arith,
}
use mpquic_sbd.Streams.Open
use mpquic_sbd.Streams.Open.{
  Perspective, is_own, is_server, StreamType, StreamsMap, find_stream, delete_stream, put_stream,
  open_remote_stream, open_stream_impl, open_stream, open_up_to, get_or_open_stream, accept_stream,
  remove_open, remove_stream, new_streams_map, first_sid, rounds,
}
use mpquic_sbd.Streams.Open.Ids.{keys}
use mpquic_sbd.Streams.Open.Counted.{Inv, remove_stream-Inv}
use mpquic_sbd.Streams.Open.Opening.{open_stream_impl-Inv, get_or_open_stream-Inv}
use mpquic_sbd.Streams.Open.Iteration.{
  stops, Iterated, iterate_func, iterate_from, round_robin_over, round_robin_iterate,
}

keys-cancel_open :
    (t : StreamType) (e : ℕ) (opened : List ℕ) (l : List (ℕ × t.Stream))
    → keys (Open.cancel_open t e opened l) ≡ keys l
unfolding Open.cancel_open
keys-cancel_open t e opened [] = refl
keys-cancel_open t e opened ((id, s) ∷ rest) = ap (◌∷◌ id) (keys-cancel_open t e opened rest)

module _ (t : StreamType) {World : Type 0}
    (fn : t.Stream → World → Result Open.StreamsError Bool × World) where
  -- An iteration changes nothing of the map but where the next one starts.
  abbrev IsTurned : StreamsMap t → StreamsMap t → Type 0
  IsTurned m after = (k : ℕ) × (after ≡ record m { round_robin_index = k })

  iterate_from-IsTurned :
      (num start i n : ℕ) (m : StreamsMap t) (w : World)
      → IsTurned m (iterate_from t fn num start i n m w).after
  unfolding iterate_from
  iterate_from-IsTurned num start i zero m w = (m.round_robin_index, refl)
  iterate_from-IsTurned num start i (suc n) m w =
      elim (Option-cases (get_elem? m.open_streams ((i + start) % num))) [
        | inl e ↦ rw (iterate_from, e) (m.round_robin_index, refl)
        | inr (id, e) ↦ elim (Bool-cases (id == 1 || id == 3)) [
          | inl first ↦ rw (iterate_from, e, first) (iterate_from-IsTurned num start (i + 1) n m w)
          | inr later ↦
              rw (iterate_from, e, later)
                (called (λ w'. iterate_from-IsTurned num start (i + 1) n next w')
                  (iterate_func t fn m id w).0 (iterate_func t fn m id w).1)
        ]
      ]
    where
      next : StreamsMap t
      next = record m { round_robin_index = (m.round_robin_index + 1) % num }

      called :
          ((w' : World) → IsTurned next (iterate_from t fn num start (i + 1) n next w').after)
          → (r : Result Open.StreamsError Bool) (w' : World)
          → IsTurned m
              (elim r as (λ _. Iterated t fn) [
                | err e ↦ record { error = some e; after = m; world = w' }
                | ok true ↦ iterate_from t fn num start (i + 1) n next w'
                | ok false ↦ record { error = none; after = next; world = w' }
              ]).after
      called rest (err e) w' = (m.round_robin_index, refl)
      called rest (ok true) w' = ((rest w').0, (rest w').1)
      called rest (ok false) w' = ((m.round_robin_index + 1) % num, refl)

  round_robin_over-IsTurned :
      (ids : List ℕ) (m : StreamsMap t) (w : World)
      → IsTurned m (round_robin_over t fn ids m w).after
  unfolding round_robin_over
  round_robin_over-IsTurned [] m w =
      iterate_from-IsTurned (length m.streams) m.round_robin_index 0 (length m.streams) m w
  round_robin_over-IsTurned (id ∷ rest) m w =
      elim (Option-cases (stops (iterate_func t fn m id w).0)) [
        | inl e ↦
            rw (round_robin_over, e) (round_robin_over-IsTurned rest m (iterate_func t fn m id w).1)
        | inr (error, e) ↦ rw (round_robin_over, e) (m.round_robin_index, refl)
      ]

module _ (t : StreamType) where
  -- The calls. Ids are small enough that the next one fits into 32 bits.
  pub data Step : StreamsMap t → StreamsMap t → Type 1 where
    opens :
        {m next : StreamsMap t} (max : ℕ) (s : t.Stream)
        → m.next_stream + 2 < 2 ^ 32
        → open_stream t max m ≡ ok (s, next)
        → Step m next
    gets :
        {m : StreamsMap t} (max id : ℕ)
        → id + 2 < 2 ^ 32
        → Step m (get_or_open_stream t max m id).after
    accepts :
        {m next : StreamsMap t} (r : Result Open.StreamsError t.Stream)
        → accept_stream t m ≡ some (r, next)
        → Step m next
    removes : {m next : StreamsMap t} (id : ℕ) → remove_stream t m id ≡ ok next → Step m next
    closes : {m : StreamsMap t} (e : ℕ) → Step m (Open.close_with_error t m e)
    iterates :
        {m : StreamsMap t} {World : Type 0}
        (fn : t.Stream → World → Result Open.StreamsError Bool × World) (w : World)
        → Step m (round_robin_iterate t fn m w).after

  pub data Reach : StreamsMap t → Type 1 where
    starts : (pers : Perspective) → Reach (new_streams_map t pers)
    steps : {m next : StreamsMap t} → Reach m → Step m next → Reach next

  -- Neither the accepted stream, nor the error, nor the index is part of the invariant.
  indexed :
      (m : StreamsMap t) (index accept : ℕ) (e : Option ℕ) (streams : List (ℕ × t.Stream))
      → Inv t m
      → keys streams ≡ keys m.streams
      → Inv t record m {
        round_robin_index = index;
        next_stream_to_accept = accept;
        close_err = e;
        streams = streams;
      }
  indexed m index accept e streams i k = record {
    same_keys = k ∙ i.same_keys;
    unique = i.unique;
    outgoing = i.outgoing;
    incoming = i.incoming;
    below = i.below;
    next_own = i.next_own;
    highest_other = i.highest_other;
  }

  accept_stream-Inv :
      (m next : StreamsMap t) (r : Result Open.StreamsError t.Stream)
      → Inv t m
      → accept_stream t m ≡ some (r, next)
      → Inv t next
  unfolding accept_stream
  accept_stream-Inv m next r i e = elim (Option-cases m.close_err) [
    | inr (c, closed) ↦ let same : m ≡ next = ground arith in subst (Inv t) same i
    | inl still ↦ elim (Option-cases (find_stream m.next_stream_to_accept m.streams)) [
      | inl waits ↦ absurd (ground arith)
      | inr (s, there) ↦
          let accepted : StreamsMap t = record m {
            next_stream_to_accept = Open.u32 (m.next_stream_to_accept + 2);
          } in
          let same : accepted ≡ next = ground arith in
          subst (Inv t) same (
            indexed m m.round_robin_index accepted.next_stream_to_accept m.close_err m.streams i
              refl)
    ]
  ]

  Step-Inv : {m next : StreamsMap t} → Step m next → Inv t m → Inv t next
  unfolding open_stream Open.close_with_error round_robin_iterate
  Step-Inv (opens {m} {next} max s b e) i = elim (Option-cases m.close_err) [
    | inr (c, closed) ↦ absurd (ground arith)
    | inl still ↦ open_stream_impl-Inv t max m next s i b (ground arith)
  ]
  Step-Inv (gets {m} max id b) i = get_or_open_stream-Inv t max m id i b
  Step-Inv (accepts {m} {next} r e) i = accept_stream-Inv m next r i e
  Step-Inv (removes {m} {next} id e) i = remove_stream-Inv t m next id i e
  Step-Inv (closes {m} e) i =
      indexed m m.round_robin_index m.next_stream_to_accept (some e) _ i
        (keys-cancel_open t e m.open_streams m.streams)
  Step-Inv (iterates {m} fn w) i =
      let p = round_robin_over-IsTurned t fn (1 ∷ 3 ∷ []) m w in
      subst (Inv t) (sym p.1) (indexed m p.0 m.next_stream_to_accept m.close_err m.streams i refl)

  -- In every state that calls on a new map reach, where ids are at least two below 2 ^ 32, the list of open
  -- streams is that of the keys of the map and holds none twice, the counters of outgoing and of incoming
  -- streams are the numbers of even and of odd ids in it, and all its ids are below the next one that the
  -- session opens or at most the highest one that the peer has opened.
  pub Reach-Counted : {m : StreamsMap t} → Reach m → Inv t m
  unfolding new_streams_map
  Reach-Counted (starts Perspective.server) = record {
    same_keys = refl;
    unique = tt;
    outgoing = refl;
    incoming = refl;
    below = tt;
    next_own = refl;
    highest_other = inl refl;
  }
  Reach-Counted (starts Perspective.client) = record {
    same_keys = refl;
    unique = tt;
    outgoing = refl;
    incoming = refl;
    below = tt;
    next_own = refl;
    highest_other = inl refl;
  }
  Reach-Counted (steps r s) = Step-Inv s (Reach-Counted r)
