-- ===== src/Streams/Open/Opening.antt =====
-- Opening streams in quic-go/streams_map.go, those of the peer and the session's own.
use mpquic_sbd.Base.{
  ℕ, zero, suc, ◌+◌, ◌*◌, ◌%◌, ◌^◌, ◌≤◌, ◌<◌, ◌≡◌, ◌≢◌, refl, sym, ◌∙◌, subst, inl, inr, Bool, true,
  false, ok, leb, ◌==◌, All, if◌then◌else◌, Bool-cases, Option-cases, Result-cases, arith,
}
use mpquic_sbd.Streams.Open
use mpquic_sbd.Streams.Open.{
  Perspective, is_own, is_server, StreamType, StreamsMap, find_stream, delete_stream, put_stream,
  open_remote_stream, open_stream_impl, open_stream, open_up_to, get_or_open_stream, accept_stream,
  remove_open, remove_stream, new_streams_map, first_sid, rounds,
}
use mpquic_sbd.Streams.Open.Ids.{keys, having_parity}
use mpquic_sbd.Streams.Open.Counted.{Inv, put_stream-new, grown, IsNew, IsNew-fresh, grown-Inv}

module _ (t : StreamType) where
  -- What a round of the loop of GetOrOpenStream leaves.
  record IsOpened (m : StreamsMap t) (sid : ℕ) (next : StreamsMap t) : Type 0 where
    inv : Inv t next
    highest : next.highest_stream_opened_by_peer ≡ sid
    pers : next.perspective ≡ m.perspective

  open_remote_stream-IsOpened :
      (max : ℕ) (m next : StreamsMap t) (sid : ℕ)
      → Inv t m
      → is_own m.perspective sid ≡ false
      → m.highest_stream_opened_by_peer < sid
      → open_remote_stream t max m sid ≡ ok next
      → IsOpened m sid next
  unfolding open_remote_stream
  open_remote_stream-IsOpened max m next sid i o h e = elim (Bool-cases (is_server m.perspective)) [
    | inl srv ↦
        let counted : StreamsMap t = record m {
          num_incoming_streams = Open.u32 (m.num_incoming_streams + 1);
          highest_stream_opened_by_peer = sid;
        } in
        let same : put_stream t counted (t.new_stream sid) ≡ next = ground arith in
        subst (IsOpened m sid) (sym (put_stream-new t counted sid fresh) ∙ same) (
          opened m.num_outgoing_streams (Open.u32 (m.num_incoming_streams + 1))
            (ground (arith, i.outgoing)) (ground (arith, i.incoming)))
    | inr cli ↦
        let counted : StreamsMap t = record m {
          num_outgoing_streams = Open.u32 (m.num_outgoing_streams + 1);
          highest_stream_opened_by_peer = sid;
        } in
        let same : put_stream t counted (t.new_stream sid) ≡ next = ground arith in
        subst (IsOpened m sid) (sym (put_stream-new t counted sid fresh) ∙ same) (
          opened (Open.u32 (m.num_outgoing_streams + 1)) m.num_incoming_streams
            (ground (arith, i.outgoing)) (ground (arith, i.incoming)))
  ]
    where
      new : IsNew t m sid m.next_stream sid
      new = inr (o, h, omega arith)

      fresh : All (λ k. k ≢ sid) (keys m.streams)
      fresh =
          subst (All (λ k. k ≢ sid)) (sym i.same_keys) (IsNew-fresh t m sid m.next_stream sid i new)

      opened :
          (out inc : ℕ)
          → out ≡ (having_parity 0 m.open_streams + (if sid % 2 == 0 then 1 else 0)) % 2 ^ 32
          → inc ≡ (having_parity 1 m.open_streams + (if sid % 2 == 1 then 1 else 0)) % 2 ^ 32
          → IsOpened m sid (grown t m sid m.next_stream sid out inc)
      opened out inc eo ei = record {
        inv =
            grown-Inv t m sid m.next_stream sid out inc i new (omega arith) (omega arith) i.next_own
              (inr o) eo ei;
        highest = refl;
        pers = refl;
      }

  pub open_stream_impl-Inv :
      (max : ℕ) (m next : StreamsMap t) (s : t.Stream)
      → Inv t m
      → m.next_stream + 2 < 2 ^ 32
      → open_stream_impl t max m ≡ ok (s, next)
      → Inv t next
  unfolding open_stream_impl
  open_stream_impl-Inv max m next s i b e = elim (Bool-cases (is_server m.perspective)) [
    | inl srv ↦
        let counted : StreamsMap t = record m {
          num_outgoing_streams = Open.u32 (m.num_outgoing_streams + 1);
          next_stream = after;
        } in
        let same : put_stream t counted (t.new_stream m.next_stream) ≡ next = ground arith in
        subst (Inv t) (sym (put_stream-new t counted m.next_stream fresh) ∙ same) (
          opened (Open.u32 (m.num_outgoing_streams + 1)) m.num_incoming_streams
            (ground (arith, i.outgoing, i.next_own)) (ground (arith, i.incoming, i.next_own)))
    | inr cli ↦
        let counted : StreamsMap t = record m {
          num_incoming_streams = Open.u32 (m.num_incoming_streams + 1);
          next_stream = after;
        } in
        let same : put_stream t counted (t.new_stream m.next_stream) ≡ next = ground arith in
        subst (Inv t) (sym (put_stream-new t counted m.next_stream fresh) ∙ same) (
          opened m.num_outgoing_streams (Open.u32 (m.num_incoming_streams + 1))
            (ground (arith, i.outgoing, i.next_own)) (ground (arith, i.incoming, i.next_own)))
  ]
    where
      after : ℕ
      after = Open.u32 (m.next_stream + 2)

      new : IsNew t m m.next_stream after m.highest_stream_opened_by_peer
      new = inl (i.next_own, omega arith, omega arith)

      fresh : All (λ k. k ≢ m.next_stream) (keys m.streams)
      fresh =
          subst (All (λ k. k ≢ m.next_stream)) (sym i.same_keys)
            (IsNew-fresh t m m.next_stream after m.highest_stream_opened_by_peer i new)

      opened :
          (out inc : ℕ)
          → out
            ≡ (having_parity 0 m.open_streams + (if m.next_stream % 2 == 0 then 1 else 0)) % 2 ^ 32
          → inc
            ≡ (having_parity 1 m.open_streams + (if m.next_stream % 2 == 1 then 1 else 0)) % 2 ^ 32
          → Inv t (grown t m m.next_stream after m.highest_stream_opened_by_peer out inc)
      opened out inc eo ei =
          grown-Inv t m m.next_stream after m.highest_stream_opened_by_peer out inc i new
            (omega arith) (omega arith) (ground (arith, i.next_own)) i.highest_other eo ei

  open_up_to-Inv :
      (max id n sid : ℕ) (m : StreamsMap t)
      → Inv t m
      → is_own m.perspective sid ≡ false
      → m.highest_stream_opened_by_peer < sid
      → sid + 2 * n < 2 ^ 32
      → Inv t (open_up_to t max id n sid m).after
  unfolding open_up_to
  open_up_to-Inv max id zero sid m i o h b = i
  open_up_to-Inv max id (suc n) sid m i o h b =
      elim (Result-cases (open_remote_stream t max m sid)) [
        | inr (e, failed) ↦ rw (open_up_to, failed) i
        | inl (next, done) ↦
            let p = open_remote_stream-IsOpened max m next sid i o h done in
            rw (open_up_to, done)
              (open_up_to-Inv max id n (Open.u32 (sid + 2)) next p.inv (ground (arith, p.pers))
                (omega (arith, p.highest)) (omega arith))
      ]

  first_sid-IsNew :
      (m : StreamsMap t)
      → Inv t m
      → m.highest_stream_opened_by_peer + 2 < 2 ^ 32
      → (is_own m.perspective (first_sid t m) ≡ false)
        × (m.highest_stream_opened_by_peer < first_sid t m)
        × (first_sid t m ≤ m.highest_stream_opened_by_peer + 2)
  first_sid-IsNew m i b = elim i.highest_other [
    | inl z ↦ (ground (arith, z), ground (arith, z), ground (arith, z))
    | inr o ↦ (ground (arith, o), ground (arith, o), ground (arith, o))
  ]

  either-Inv :
      (b : Bool) (x y : Open.Opened t)
      → Inv t x.after
      → Inv t y.after
      → Inv t (if b then x else y).after
  either-Inv true x y ix iy = ix
  either-Inv false x y ix iy = iy

  pub get_or_open_stream-Inv :
      (max : ℕ) (m : StreamsMap t) (id : ℕ)
      → Inv t m
      → id + 2 < 2 ^ 32
      → Inv t (get_or_open_stream t max m id).after
  unfolding get_or_open_stream
  get_or_open_stream-Inv max m id i b = elim (Option-cases (find_stream id m.streams)) [
    | inr (s, there) ↦ rw (get_or_open_stream, there) i
    | inl absent ↦ elim (Bool-cases (is_own m.perspective id)) [
      | inl own ↦ rw (get_or_open_stream, absent, own) (either-Inv (leb id m.next_stream) _ _ i i)
      | inr other ↦ elim (Bool-cases (leb id m.highest_stream_opened_by_peer)) [
        | inl old ↦ rw (get_or_open_stream, absent, other, old) i
        | inr new ↦
            let above : m.highest_stream_opened_by_peer < id = ground arith in
            let f = first_sid-IsNew m i (omega arith) in
            rw (get_or_open_stream, absent, other, new)
              (open_up_to-Inv max id (rounds t id (first_sid t m)) (first_sid t m) m i f.0 f.1
                (few (first_sid t m) (omega (arith, f.2))))
      ]
    ]
  ]
    where
      few : (sid : ℕ) → sid < 2 ^ 32 → sid + 2 * rounds t id sid < 2 ^ 32
      few sid h = ground arith
