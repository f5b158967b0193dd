-- ===== src/Streams/Sorter/Delivery.antt =====
-- What the sorter hands out: the bytes of the stream, in their order.
use mpquic_sbd.Base.{
  ℕ, zero, suc, ◌+◌, ◌-◌, ◌^◌, ◌≤◌, ◌<◌, ◌≡◌, refl, sym, ◌∙◌, ap, subst, Bool, true, false, inl,
  inr, List, [], ◌∷◌, ◌++◌, some, ltb, leb, ◌==◌, ◌&&◌, length, take, drop, min, All, if◌then◌else◌,
  Bool-cases, Option-cases, arith, length-drop, length-take,
}
use mpquic_sbd.Protocol.{add_u64}
use mpquic_sbd.Wire.Stream.{StreamFrame}
use mpquic_sbd.Streams.Sorter
use mpquic_sbd.Streams.Sorter.{
  ByteInterval, Sorter, Search, EndGap, Outcome, lookup, delete, delete_all, put, skip_bytes,
  keep_bytes, find_gap, find_end_gap, push, pop, store, push_at, push_new, push_data,
  new_stream_frame_sorter, head,
}
use mpquic_sbd.Streams.Sorter.Queue.{delete-All, delete_all-All, lookup-All}

-- The `n` bytes of a stream from the offset on.
abbrev pub segment : (ℕ → ℕ) → ℕ → ℕ → List ℕ
segment stream offset zero = []
segment stream offset (suc n) = stream offset ∷ segment stream (offset + 1) n

pub segment-cong :
    (stream : ℕ → ℕ) (a b m n : ℕ) → a ≡ b → m ≡ n → segment stream a m ≡ segment stream b n
segment-cong stream a b m n e e2 = rw (e, e2) refl

pub segment-append :
    (stream : ℕ → ℕ) (offset m n : ℕ)
    → segment stream offset m ++ segment stream (offset + m) n ≡ segment stream offset (m + n)
segment-append stream offset zero n = ground arith
segment-append stream offset (suc m) n =
    ap (◌∷◌ (stream offset)) (
      ap (λ l. segment stream (offset + 1) m ++ l) (segment-cong stream _ _ n n (omega arith) refl)
      ∙ segment-append stream (offset + 1) m n)
    ∙ segment-cong stream offset offset (suc (m + n)) _ refl (omega arith)

pub drop-segment :
    (stream : ℕ → ℕ) (offset m n : ℕ)
    → drop m (segment stream offset n) ≡ segment stream (offset + m) (n - m)
drop-segment stream offset zero n = ground arith
drop-segment stream offset (suc m) zero = ground arith
drop-segment stream offset (suc m) (suc n) = ground (arith, drop-segment stream (offset + 1) m n)

pub take-segment :
    (stream : ℕ → ℕ) (offset m n : ℕ)
    → take m (segment stream offset n) ≡ segment stream offset (min m n)
take-segment stream offset zero n = ground arith
take-segment stream offset (suc m) zero = ground arith
take-segment stream offset (suc m) (suc n) = ground (arith, take-segment stream (offset + 1) m n)

-- The frame holds bytes of the stream, none of them beyond what an offset can count.
pub record IsPart (stream : ℕ → ℕ) (f : StreamFrame) : Type 0 where
  pub bytes : f.content ≡ segment stream f.offset (length f.content)
  pub bounded : f.offset + length f.content < 2 ^ 64

pub skip_bytes-IsPart :
    (stream : ℕ → ℕ) (n : ℕ) (f : StreamFrame)
    → IsPart stream f
    → n ≤ length f.content
    → IsPart stream (skip_bytes n f)
unfolding skip_bytes
skip_bytes-IsPart stream n f p h = record {
  bytes =
      ap (drop n) p.bytes
      ∙ drop-segment stream f.offset n (length f.content)
      ∙ segment-cong stream _ _ _ _ (omega (arith, p.bounded)) (sym (length-drop n f.content));
  bounded = omega (arith, p.bounded, length-drop n f.content);
}

pub keep_bytes-IsPart :
    (stream : ℕ → ℕ) (n : ℕ) (f : StreamFrame) → IsPart stream f → IsPart stream (keep_bytes n f)
keep_bytes-IsPart stream n f p = record {
  bytes =
      ap (take n) p.bytes
      ∙ take-segment stream f.offset n (length f.content)
      ∙ ap (segment stream f.offset) (sym (length-take n f.content));
  bounded = omega (arith, p.bounded, length-take n f.content);
}

abbrev pub IsEntry : (ℕ → ℕ) → ℕ × StreamFrame → Type 0
IsEntry stream e = (e.0 ≡ e.1.offset) × IsPart stream e.1

abbrev pub IsQueued : (ℕ → ℕ) → List (ℕ × StreamFrame) → Type 0
IsQueued stream = All (IsEntry stream)

put-IsQueued :
    (stream : ℕ → ℕ) (f : StreamFrame) (l : List (ℕ × StreamFrame))
    → IsPart stream f
    → IsQueued stream l
    → IsQueued stream (put f l)
put-IsQueued stream f l p q = ((refl, p), delete-All (IsEntry stream) f.offset l q)

-- The gap that is found starts before the end of the frame.
pub find_gap-start :
    (start end : ℕ) (gaps before after : List ByteInterval) (gap : ByteInterval)
    → find_gap start end gaps ≡ Sorter.found before gap after
    → gap.start < end
unfolding find_gap
find_gap-start start end [] before after gap e = absurd (ground arith)
find_gap-start start end (g ∷ rest) before after gap e =
    by_later (find_gap start end rest) (find_gap-start start end rest) e
  where
    by_later :
        (later : Search)
        → ((b a : List ByteInterval) (h : ByteInterval)
            → later ≡ Sorter.found b h a
            → h.start < end)
        → (if leb end g.start
            then Sorter.duplicate
            else if ltb g.start end && leb start g.end
            then Sorter.found [] g rest
            else Sorter.after_gap g later)
          ≡ Sorter.found before gap after
        → gap.start < end
    by_later Sorter.duplicate rec e = ground arith
    by_later Sorter.no_gap rec e = ground arith
    by_later (Sorter.found b h a) rec e = ground (arith, rec b a h refl)

module _ (stream : ℕ → ℕ) where
  -- The outcome leaves only bytes of the stream in the queue.
  pub record IsKept (position : ℕ) (out : Outcome) : Type 0 where
    pub at_position : out.sorter.read_position ≡ position
    pub queue : IsQueued stream out.sorter.queued_frames

  either-IsKept :
      (b : Bool) {x y : Outcome} {n : ℕ} → IsKept n x → IsKept n y → IsKept n (if b then x else y)
  either-IsKept true qx qy = qx
  either-IsKept false qx qy = qy

  store-IsKept :
      (s : Sorter) (f : StreamFrame) (before : List ByteInterval) (gap : ByteInterval) (e : EndGap)
      → IsPart stream f
      → IsQueued stream s.queued_frames
      → IsKept s.read_position (store s f before gap e)
  unfolding store
  store-IsKept s f before gap e p q =
      let kept = delete_all-All (IsEntry stream) e.deleted s.queued_frames q in
      let end = min (add_u64 f.offset (length f.content)) e.end_gap.end in
      let put_in =
        put-IsQueued stream (keep_bytes (end - f.offset) f) _ (keep_bytes-IsPart stream _ f p)
          kept in
      elim (Bool-cases (
        ltb Sorter.max_stream_frame_sorter_gaps
          (length (before ++ Sorter.fill_gaps gap e f.offset end)))) [
            | inl t ↦ rw (store, t) record { at_position = refl; queue = kept }
            | inr t ↦ rw (store, t) record { at_position = refl; queue = put_in }
          ]

  cut-IsPart :
      (f : StreamFrame) (b : Bool) (n : ℕ)
      → IsPart stream f
      → n ≤ length f.content
      → IsPart stream (if b then skip_bytes n f else f)
  cut-IsPart f true n p h = skip_bytes-IsPart stream n f p h
  cut-IsPart f false n p h = p

  push_at-IsKept :
      (s : Sorter) (f : StreamFrame) (search : Search)
      → IsPart stream f
      → IsQueued stream s.queued_frames
      → find_gap f.offset (add_u64 f.offset (length f.content)) s.gaps ≡ search
      → IsKept s.read_position (push_at s f search)
  unfolding push_at
  push_at-IsKept s f Sorter.duplicate p q e = record { at_position = refl; queue = q }
  push_at-IsKept s f Sorter.no_gap p q e = record { at_position = refl; queue = q }
  push_at-IsKept s f (Sorter.found before gap after) p q e =
      let starts = find_gap-start f.offset _ s.gaps before after gap e in
      either-IsKept _
        record { at_position = refl; queue = delete_all-All (IsEntry stream) _ s.queued_frames q }
        (store-IsKept s _ before gap _
          (cut-IsPart f _ (gap.start - f.offset) p (omega (arith, starts, p.bounded))) q)

  push_new-IsKept :
      (s : Sorter) (f : StreamFrame)
      → IsPart stream f
      → IsQueued stream s.queued_frames
      → IsKept s.read_position (push_new s f)
  unfolding push_new
  push_new-IsKept s f p q = push_at-IsKept s f _ p q refl

  push_data-IsKept :
      (s : Sorter) (f : StreamFrame)
      → IsPart stream f
      → IsQueued stream s.queued_frames
      → IsKept s.read_position (push_data s f)
  unfolding push_data
  push_data-IsKept s f p q = elim (Option-cases (lookup f.offset s.queued_frames)) [
    | inl e ↦ rw (push_data, e) (push_new-IsKept s f p q)
    | inr (old, e) ↦ elim (Bool-cases (leb (length f.content) (length old.content))) [
      | inl e2 ↦ rw (push_data, e, e2) record { at_position = refl; queue = q }
      | inr e2 ↦
          rw (push_data, e, e2)
            (push_new-IsKept s _ (skip_bytes-IsPart stream _ f p (ground arith)) q)
    ]
  ]

  pub push-IsKept :
      (s : Sorter) (f : StreamFrame)
      → IsPart stream f
      → IsQueued stream s.queued_frames
      → IsKept s.read_position (push s f)
  unfolding push
  push-IsKept s f p q =
      either-IsKept (length f.content == 0)
        (either-IsKept f.fin_bit record { at_position = refl; queue = put-IsQueued stream f _ p q }
          record { at_position = refl; queue = q })
        (push_data-IsKept s f p q)

  -- The calls on the sorter, from a new one on, with the bytes handed out so far. The frames pushed hold
  -- bytes of the stream; they may come in any order, repeated and overlapping.
  pub data Run : Sorter → List ℕ → Type 0 where
    starts : Run new_stream_frame_sorter []
    pushes :
        {s : Sorter} {out : List ℕ} (f : StreamFrame)
        → Run s out
        → IsPart stream f
        → Run (push s f).sorter out
    pops :
        {s s' : Sorter} {out : List ℕ} {f : StreamFrame}
        → Run s out
        → pop s ≡ (some f, s')
        → Run s' (out ++ f.content)

  -- The queue holds bytes of the stream, and those before the read position have been handed out.
  pub record IsDelivered (s : Sorter) (out : List ℕ) : Type 0 where
    pub queue : IsQueued stream s.queued_frames
    pub bounded : s.read_position < 2 ^ 64
    pub delivered : out ≡ segment stream 0 s.read_position

  pop-IsDelivered :
      (s s' : Sorter) (out : List ℕ) (f : StreamFrame)
      → IsDelivered s out
      → pop s ≡ (some f, s')
      → IsDelivered s' (out ++ f.content)
  unfolding pop head
  pop-IsDelivered s s' out f d e = elim (Option-cases (lookup s.read_position s.queued_frames)) [
    | inl none_there ↦ absurd (ground arith)
    | inr (g, there) ↦
        let found = lookup-All (IsEntry stream) s.read_position g s.queued_frames d.queue there in
        let same : g ≡ f = ground arith in
        let part = subst (λ z. IsPart stream z) same found.1 in
        let after : record s {
          queued_frames = delete g.offset s.queued_frames;
          read_position = add_u64 s.read_position (length g.content);
        }
            ≡ s' =
          ground arith in
        subst (λ z. IsDelivered z (out ++ f.content)) after
          record {
            queue = delete-All (IsEntry stream) g.offset s.queued_frames d.queue;
            bounded = omega arith;
            delivered =
                ap (λ l. l ++ f.content) d.delivered
                ∙ ap (λ l. segment stream 0 s.read_position ++ l)
                    (part.bytes ∙ segment-cong stream _ _ _ _ (ground arith) refl)
                ∙ segment-append stream 0 s.read_position (length f.content)
                ∙ segment-cong stream 0 0 _ _ refl (at_end s.read_position f g same found part);
          }
  ]
    where
      at_end :
          (position : ℕ) (f g : StreamFrame)
          → g ≡ f
          → (position ≡ g.offset) × IsPart stream g
          → IsPart stream f
          → position + length f.content ≡ add_u64 position (length g.content)
      at_end position f g same found part = let bound = found.1.bounded in ground arith

  -- If every frame that is pushed holds bytes of one stream, in whatever order, repetition and overlap,
  -- and whether Push accepts it or fails, then the contents of the frames that Pop has returned are
  -- together exactly the bytes of the stream before the read position.
  pub Run-IsDelivered : {s : Sorter} {out : List ℕ} → Run s out → IsDelivered s out
  unfolding new_stream_frame_sorter
  Run-IsDelivered starts = record { queue = tt; bounded = omega arith; delivered = refl }
  Run-IsDelivered (pushes {s} {out} f r p) =
      let d = Run-IsDelivered r in
      let kept = push-IsKept s f p d.queue in
      record {
        queue = kept.queue;
        bounded = omega (arith, d.bounded, kept.at_position);
        delivered = d.delivered ∙ ap (segment stream 0) (sym kept.at_position);
      }
  Run-IsDelivered (pops {s} {s'} {out} {f} r e) = pop-IsDelivered s s' out f (Run-IsDelivered r) e
