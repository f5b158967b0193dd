-- ===== src/Streams/Open/Counted.antt =====
-- The open streams of quic-go/streams_map.go: their list, the map and the counters.
use mpquic_sbd.Base.{
  ℕ, ◌+◌, ◌-◌, ◌%◌, ◌^◌, ◌≤◌, ◌<◌, ◌≡◌, ◌≢◌, refl, sym, ◌∙◌, ap, subst, inl, inr, ◌⊎◌, true, false,
  [], ◌∷◌, ◌++◌, ok, ◌==◌, All, if◌then◌else◌, Bool-cases, Option-cases, arith,
}
use mpquic_sbd.Streams.Open
use mpquic_sbd.Streams.Open.{
  Perspective, is_own, is_server, StreamType, StreamsMap, find_stream, delete_stream, put_stream,
  open_remote_stream, open_stream_impl, open_stream, open_up_to, get_or_open_stream, accept_stream,
  remove_open, remove_stream, new_streams_map, first_sid, rounds,
}
use mpquic_sbd.Streams.Open.Ids.{
  keys, Unique, having_parity, keys-append, having_parity-append, All-append, All-imp,
  Unique-append, remove_open-All, remove_open-Unique, find_stream-none, keys-delete_stream,
  having_parity-remove_open,
}

-- The ids of the session's own streams are below the next one, the others at most the highest.
abbrev pub IsBelow : Perspective → ℕ → ℕ → ℕ → Type 0
IsBelow pers next highest id =
    ((is_own pers id ≡ true) × (id < next)) ⊎ ((is_own pers id ≡ false) × (id ≤ highest))

module _ (t : StreamType) where
  -- The list of open streams is that of the keys of the map, with none twice; the counters are the
  -- numbers of even and of odd ids in it.
  pub record Inv (m : StreamsMap t) : Type 0 where
    pub same_keys : keys m.streams ≡ m.open_streams
    pub unique : Unique m.open_streams
    pub outgoing : m.num_outgoing_streams ≡ having_parity 0 m.open_streams % 2 ^ 32
    pub incoming : m.num_incoming_streams ≡ having_parity 1 m.open_streams % 2 ^ 32
    pub below :
        All (IsBelow m.perspective m.next_stream m.highest_stream_opened_by_peer) m.open_streams
    pub next_own : is_own m.perspective m.next_stream ≡ true
    pub highest_other :
        (m.highest_stream_opened_by_peer ≡ 0)
        ⊎ (is_own m.perspective m.highest_stream_opened_by_peer ≡ false)

  pub put_stream-new :
      (m : StreamsMap t) (id : ℕ)
      → All (λ k. k ≢ id) (keys m.streams)
      → put_stream t m (t.new_stream id) ≡ record m {
        streams = m.streams ++ ((id, t.new_stream id) ∷ []);
        open_streams = m.open_streams ++ (id ∷ []);
      }
  unfolding put_stream
  put_stream-new m id a = at (t.stream_id-new_stream id) a
    where
      at :
          {n : ℕ}
          → t.stream_id (t.new_stream id) ≡ n
          → All (λ k. k ≢ n) (keys m.streams)
          → put_stream t m (t.new_stream id) ≡ record m {
            streams = m.streams ++ ((n, t.new_stream id) ∷ []);
            open_streams = m.open_streams ++ (n ∷ []);
          }
      at e =
          subst
            (λ n.
              All (λ k. k ≢ n) (keys m.streams)
              → put_stream t m (t.new_stream id) ≡ record m {
                streams = m.streams ++ ((n, t.new_stream id) ∷ []);
                open_streams = m.open_streams ++ (n ∷ []);
              })
            e (λ a. rw (put_stream, find_stream-none _ m.streams a) refl)

  abbrev removed : StreamsMap t → ℕ → ℕ → ℕ → ℕ → StreamsMap t
  removed m id index out inc = record m {
    num_outgoing_streams = out;
    num_incoming_streams = inc;
    round_robin_index = index;
    open_streams = remove_open id m.open_streams;
    streams = delete_stream id m.streams;
  }

  removed-Inv :
      (m : StreamsMap t) (id index out inc : ℕ)
      → Inv m
      → out ≡ having_parity 0 (remove_open id m.open_streams) % 2 ^ 32
      → inc ≡ having_parity 1 (remove_open id m.open_streams) % 2 ^ 32
      → Inv (removed m id index out inc)
  removed-Inv m id index out inc i eo ei = record {
    same_keys =
        keys-delete_stream id m.streams (subst Unique (sym i.same_keys) i.unique)
        ∙ ap (remove_open id) i.same_keys;
    unique = remove_open-Unique id m.open_streams i.unique;
    outgoing = eo;
    incoming = ei;
    below = remove_open-All _ id m.open_streams i.below;
    next_own = i.next_own;
    highest_other = i.highest_other;
  }

  pub remove_stream-Inv :
      (m next : StreamsMap t) (id : ℕ) → Inv m → remove_stream t m id ≡ ok next → Inv next
  unfolding remove_stream
  remove_stream-Inv m next id i e = elim (Option-cases (find_stream id m.streams)) [
    | inl n ↦ absurd (ground arith)
    | inr (s, found) ↦
        let index =
          if Open.is_before id m.open_streams m.round_robin_index
          then m.round_robin_index - 1
          else m.round_robin_index in
        let lost = λ (r : ℕ).
          ap (having_parity r) (sym i.same_keys)
          ∙ having_parity-remove_open r id m.streams s found
          ∙ ap (λ l. having_parity r (remove_open id l) + (if id % 2 == r then 1 else 0))
              i.same_keys in
        elim (Bool-cases (id % 2 == 0)) [
          | inl even ↦
              let same : removed m id index (Open.u32 (m.num_outgoing_streams + (2 ^ 32 - 1)))
                    m.num_incoming_streams
                  ≡ next =
                ground arith in
              subst Inv same (
                removed-Inv m id index (Open.u32 (m.num_outgoing_streams + (2 ^ 32 - 1)))
                  m.num_incoming_streams i (ground (arith, lost 0, i.outgoing))
                  (ground (arith, lost 1, i.incoming)))
          | inr odd ↦
              let same : removed m id index m.num_outgoing_streams
                    (Open.u32 (m.num_incoming_streams + (2 ^ 32 - 1)))
                  ≡ next =
                ground arith in
              subst Inv same (
                removed-Inv m id index m.num_outgoing_streams
                  (Open.u32 (m.num_incoming_streams + (2 ^ 32 - 1))) i
                  (ground (arith, lost 0, i.outgoing)) (ground (arith, lost 1, i.incoming)))
        ]
  ]

  abbrev pub grown : StreamsMap t → ℕ → ℕ → ℕ → ℕ → ℕ → StreamsMap t
  grown m id next highest out inc = record m {
    num_outgoing_streams = out;
    num_incoming_streams = inc;
    next_stream = next;
    highest_stream_opened_by_peer = highest;
    streams = m.streams ++ ((id, t.new_stream id) ∷ []);
    open_streams = m.open_streams ++ (id ∷ []);
  }

  -- The id is one that no stream of the map has.
  abbrev pub IsNew : StreamsMap t → ℕ → ℕ → ℕ → Type 0
  IsNew m id next highest =
      ((is_own m.perspective id ≡ true) × (m.next_stream ≤ id) × (id < next))
      ⊎ ((is_own m.perspective id ≡ false)
          × (m.highest_stream_opened_by_peer < id)
          × (id ≤ highest))

  pub IsNew-fresh :
      (m : StreamsMap t) (id next highest : ℕ)
      → Inv m
      → IsNew m id next highest
      → All (λ k. k ≢ id) m.open_streams
  IsNew-fresh m id next highest i new =
      All-imp _ (λ k. k ≢ id) m.open_streams (λ k b. differs k b new) i.below
    where
      differs :
          (k : ℕ)
          → IsBelow m.perspective m.next_stream m.highest_stream_opened_by_peer k
          → IsNew m id next highest
          → k ≢ id
      differs k (inl (o, h)) (inl (o', h', _)) e = omega (arith, e, h, h')
      differs k (inl (o, h)) (inr (o', h', _)) e =
          absurd (ground (arith, o', ap (is_own m.perspective) (sym e) ∙ o))
      differs k (inr (o, h)) (inl (o', h', _)) e =
          absurd (ground (arith, o', ap (is_own m.perspective) (sym e) ∙ o))
      differs k (inr (o, h)) (inr (o', h', _)) e = omega (arith, e, h, h')

  pub grown-Inv :
      (m : StreamsMap t) (id next highest out inc : ℕ)
      → Inv m
      → IsNew m id next highest
      → m.next_stream ≤ next
      → m.highest_stream_opened_by_peer ≤ highest
      → is_own m.perspective next ≡ true
      → ((highest ≡ 0) ⊎ (is_own m.perspective highest ≡ false))
      → out ≡ (having_parity 0 m.open_streams + (if id % 2 == 0 then 1 else 0)) % 2 ^ 32
      → inc ≡ (having_parity 1 m.open_streams + (if id % 2 == 1 then 1 else 0)) % 2 ^ 32
      → Inv (grown m id next highest out inc)
  grown-Inv m id next highest out inc i new hn hh on oh eo ei = record {
    same_keys = keys-append m.streams id (t.new_stream id) ∙ ap (λ l. l ++ (id ∷ [])) i.same_keys;
    unique = Unique-append m.open_streams id i.unique (IsNew-fresh m id next highest i new);
    outgoing = eo ∙ ap (λ n. n % 2 ^ 32) (sym (having_parity-append 0 m.open_streams id));
    incoming = ei ∙ ap (λ n. n % 2 ^ 32) (sym (having_parity-append 1 m.open_streams id));
    below =
        All-append _ m.open_streams id
          (All-imp _ (IsBelow m.perspective next highest) m.open_streams (λ k b. higher k b)
            i.below)
          (placed new);
    next_own = on;
    highest_other = oh;
  }
    where
      higher :
          (k : ℕ)
          → IsBelow m.perspective m.next_stream m.highest_stream_opened_by_peer k
          → IsBelow m.perspective next highest k
      higher k (inl (o, h)) = inl (o, omega (arith, h, hn))
      higher k (inr (o, h)) = inr (o, omega (arith, h, hh))

      placed : IsNew m id next highest → IsBelow m.perspective next highest id
      placed (inl (o, _, h)) = inl (o, h)
      placed (inr (o, _, h)) = inr (o, h)
