-- ===== src/Streams/Sorter/Stored.antt =====
-- What Push stores of a frame, and what it leaves of the gaps.
use mpquic_sbd.Base.{
  ℕ, ◌+◌, ◌-◌, ◌^◌, ◌≤◌, ◌<◌, ◌≡◌, ◌≢◌, refl, ◌∙◌, ap, subst, Bool, true, false, inl, inr, List, [],
  ◌∷◌, ◌++◌, some, ltb, leb, ◌==◌, not, ◌&&◌, min, length, take, All, if◌then◌else◌, Bool-cases,
  Option-cases, arith, length-drop, length-take,
}
use mpquic_sbd.Protocol.{add_u64}
use mpquic_sbd.Wire.Stream.{StreamFrame}
use mpquic_sbd.Streams.Sorter
use mpquic_sbd.Streams.Sorter.{
  ByteInterval, Sorter, Search, EndGap, Outcome, SortError, delete, delete_all, put, lookup,
  skip_bytes, keep_bytes, find_gap, find_end_gap, fill_gaps, store, push_at, push_new, push_data,
  push, pop, head, new_stream_frame_sorter,
}
use mpquic_sbd.Streams.Sorter.Queue.{delete-All, delete_all-All, lookup-All, All-map}
use mpquic_sbd.Streams.Sorter.Gaps.{
  missing, Apart, IsFound, IsSearched, find_gap-IsSearched, missing-append, not_missing_below,
}
use mpquic_sbd.Streams.Sorter.Filled.{IsEnded, IsFilled, find_end_gap-IsEnded, fill_gaps-IsFilled}

-- A queued frame stands under its offset, and none of its bytes is missing.
abbrev pub IsThere : List ByteInterval → ℕ × StreamFrame → Type 0
IsThere gaps e =
    (e.0 ≡ e.1.offset)
    × ((x : ℕ) → e.1.offset ≤ x → x < e.1.offset + length e.1.content → missing x gaps ≡ false)

pub record IsGood (s : Sorter) : Type 0 where
  pub apart : Apart 0 s.gaps
  pub there : All (IsThere s.gaps) s.queued_frames

-- The bytes from `start` to `end` are missing no more, all others as before, and no error is one that the
-- code calls a bug.
pub record IsPushed (s : Sorter) (start end : ℕ) (out : Outcome) : Type 0 where
  pub good : IsGood out.sorter
  pub left_missing :
      (x : ℕ) → missing x out.sorter.gaps ≡ (missing x s.gaps && not (leb start x && ltb x end))
  pub gap_found : out.error ≢ some Sorter.no_gap_found
  pub end_gap_found : out.error ≢ some Sorter.no_end_gap_found

either-IsPushed :
    (b : Bool) {s : Sorter} {start end : ℕ} {x y : Outcome}
    → IsPushed s start end x
    → IsPushed s start end y
    → IsPushed s start end (if b then x else y)
either-IsPushed true px py = px
either-IsPushed false px py = py

-- A call that changes nothing is right if nothing of the frame was missing.
unchanged-IsPushed :
    (s : Sorter) (start end : ℕ) (e : SortError)
    → IsGood s
    → e ≢ Sorter.no_gap_found
    → e ≢ Sorter.no_end_gap_found
    → ((x : ℕ) → start ≤ x → x < end → missing x s.gaps ≡ false)
    → IsPushed s start end (Sorter.fails_with s e)
unchanged-IsPushed s start end e g n m h = record {
  good = g;
  left_missing = λ x. ground (arith, h x);
  gap_found = λ c. n (ground (arith, c));
  end_gap_found = λ c. m (ground (arith, c));
}

-- `f` is the frame from `start` to `end`, without the part before the gap.
record IsCut (start end : ℕ) (gap : ByteInterval) (f : StreamFrame) : Type 0 where
  from : start ≤ f.offset
  inside : gap.start ≤ f.offset
  meets : f.offset ≤ gap.end
  whole : f.offset + length f.content ≡ end
  nonempty : f.offset < end
  skipped : (x : ℕ) → start ≤ x → x < f.offset → x < gap.start

store-IsPushed :
    (s : Sorter) (start end : ℕ) (f : StreamFrame) (before after : List ByteInterval)
    (gap : ByteInterval) (e : EndGap)
    → IsGood s
    → (found : IsFound start end 0 before gap after) → s.gaps ≡ before ++ (gap ∷ after)
    → IsEnded end found.bound true gap after e
    → IsCut start end gap f
    → end + 1 < 2 ^ 64
    → IsPushed s start end (store s f before gap e)
unfolding store
store-IsPushed s start end f before after gap e g found split n c b =
    elim (Bool-cases (ltb Sorter.max_stream_frame_sorter_gaps (length gaps))) [
      | inl t ↦
          rw (store, t)
            record {
              good = record { apart = apart; there = kept };
              left_missing = changed;
              gap_found = λ c. ground arith;
              end_gap_found = λ c. ground arith;
            }
      | inr t ↦
          rw (store, t)
            record {
              good = record {
                apart = apart;
                there = ((refl, fresh), delete-All (IsThere gaps) f.offset _ kept);
              };
              left_missing = changed;
              gap_found = λ c. ground arith;
              end_gap_found = λ c. ground arith;
            }
    ]
  where
    stop : ℕ
    stop = min (add_u64 f.offset (length f.content)) e.end_gap.end

    gaps : List ByteInterval
    gaps = before ++ fill_gaps gap e f.offset stop

    same_stop : min end e.end_gap.end ≡ stop
    same_stop = omega (arith, c.whole)

    fill : IsFilled f.offset end found.bound gap after (fill_gaps gap e f.offset stop)
    fill =
        subst (λ z. IsFilled f.offset end found.bound gap after (fill_gaps gap e f.offset z))
          same_stop
          (fill_gaps-IsFilled f.offset end found.bound gap after e found.here n c.inside c.meets
            c.nonempty b)

    apart : Apart 0 gaps
    apart = found.front _ fill.apart

    changed : (x : ℕ) → missing x gaps ≡ (missing x s.gaps && not (leb start x && ltb x end))
    changed x =
        missing-append x before _
        ∙ ground (
          arith,
          fill.filled x,
          found.before_start x,
          c.skipped x,
          ap (missing x) split ∙ missing-append x before (gap ∷ after),
          not_missing_below x gap.start (gap ∷ after) (omega arith, found.here.1, found.here.2),
        )

    kept : All (IsThere gaps) (delete_all e.deleted s.queued_frames)
    kept = delete_all-All (IsThere gaps) e.deleted _ (
        All-map s.queued_frames (λ z k. (k.0, λ x l m. ground (arith, changed x, k.1 x l m)))
          g.there)

    fresh :
        (x : ℕ)
        → f.offset ≤ x
        → x < f.offset + length (take (stop - f.offset) f.content)
        → missing x gaps ≡ false
    fresh x l m =
        ground (arith, changed x, length-take (stop - f.offset) f.content, c.from, c.whole)

skip_bytes-end :
    (n : ℕ) (f : StreamFrame)
    → n ≤ length f.content
    → f.offset + length f.content + 1 < 2 ^ 64
    → ((skip_bytes n f).offset ≡ f.offset + n)
      × (length (skip_bytes n f).content ≡ length f.content - n)
unfolding skip_bytes
skip_bytes-end n f h b = (omega arith, length-drop n f.content)

skipped-IsCut :
    (f : StreamFrame) (gap : ByteInterval)
    → gap.start < f.offset + length f.content
    → f.offset ≤ gap.end
    → gap.start < gap.end
    → 0 < length f.content
    → f.offset + length f.content + 1 < 2 ^ 64
    → IsCut f.offset
        (f.offset + length f.content)
        gap
        (if ltb f.offset gap.start then skip_bytes (gap.start - f.offset) f else f)
skipped-IsCut f gap h k o z b = elim (Bool-cases (ltb f.offset gap.start)) [
  | inl t ↦
      let skip = skip_bytes-end (gap.start - f.offset) f (omega arith) b in
      let le : f.offset < gap.start = ground arith in
      rw t record {
        from = omega (arith, skip.0);
        inside = omega (arith, skip.0);
        meets = omega (arith, skip.0);
        whole = omega (arith, skip.0, skip.1);
        nonempty = omega (arith, skip.0);
        skipped = λ x l m. omega (arith, skip.0);
      }
  | inr t ↦ rw t record {
    from = omega arith;
    inside = ground arith;
    meets = k;
    whole = refl;
    nonempty = omega arith;
    skipped = λ x l m. omega arith;
  }
]

push_at-IsPushed :
    (s : Sorter) (f : StreamFrame) (search : Search)
    → IsGood s
    → 0 < length f.content
    → f.offset + length f.content + 1 < 2 ^ 64
    → IsSearched f.offset (f.offset + length f.content) 0 s.gaps search
    → IsPushed s f.offset (f.offset + length f.content) (push_at s f search)
unfolding push_at find_end_gap
push_at-IsPushed s f Sorter.duplicate g z b i =
    unchanged-IsPushed s f.offset _ _ g (λ c. ground arith) (λ c. ground arith) i
push_at-IsPushed s f Sorter.no_gap g z b i = absurd (omega arith)
push_at-IsPushed s f (Sorter.found before gap after) g z b (i, split) =
    rw (push_at, n.fine)
      (store-IsPushed s f.offset end _ before after gap _ g i split n
        (skipped-IsCut f gap i.starts i.ends i.here.1 z b) b)
  where
    end : ℕ
    end = f.offset + length f.content

    same_end : end ≡ add_u64 f.offset (length f.content)
    same_end = omega arith

    n :
        IsEnded end i.bound true gap after
          (find_end_gap (add_u64 f.offset (length f.content)) gap true after [])
    n =
        subst (λ z. IsEnded end i.bound true gap after (find_end_gap z gap true after [])) same_end
          (find_end_gap-IsEnded end i.bound gap true after [] i.here i.starts b)

push_new-IsPushed :
    (s : Sorter) (f : StreamFrame)
    → IsGood s
    → 0 < length f.content
    → f.offset + length f.content + 1 < 2 ^ 64
    → IsPushed s f.offset (f.offset + length f.content) (push_new s f)
unfolding push_new
push_new-IsPushed s f g z b = push_at-IsPushed s f _ g z b (
    subst (λ e. IsSearched f.offset end 0 s.gaps (find_gap f.offset e s.gaps)) same_end
      (find_gap-IsSearched f.offset end 0 s.gaps g.apart (omega arith) (omega arith)))
  where
    end : ℕ
    end = f.offset + length f.content

    same_end : end ≡ add_u64 f.offset (length f.content)
    same_end = omega arith

push_data-IsPushed :
    (s : Sorter) (f : StreamFrame)
    → IsGood s
    → 0 < length f.content
    → f.offset + length f.content + 1 < 2 ^ 64
    → IsPushed s f.offset (f.offset + length f.content) (push_data s f)
unfolding push_data
push_data-IsPushed s f g z b = elim (Option-cases (lookup f.offset s.queued_frames)) [
  | inl e ↦ rw (push_data, e) (push_new-IsPushed s f g z b)
  | inr (old, e) ↦
      let there = lookup-All (IsThere s.gaps) f.offset old s.queued_frames g.there e in
      elim (Bool-cases (leb (length f.content) (length old.content))) [
        | inl e2 ↦
            rw (push_data, e, e2)
              (unchanged-IsPushed s _ _ _ g (λ c. ground arith) (λ c. ground arith)
                (λ x l m. there.1 x (omega (arith, there.0)) (ground (arith, there.0))))
        | inr e2 ↦ rw (push_data, e, e2) (rest old there (ground arith))
      ]
]
  where
    rest :
        (old : StreamFrame)
        → IsThere s.gaps (f.offset, old)
        → length old.content < length f.content
        → IsPushed s f.offset
            (f.offset + length f.content)
            (push_new s (skip_bytes (length old.content) f))
    rest old there h =
        let skip = skip_bytes-end (length old.content) f (omega arith) b in
        let p =
          push_new-IsPushed s (skip_bytes (length old.content) f) g (omega (arith, skip.1))
            (omega (arith, skip.0, skip.1)) in
        record {
          good = p.good;
          left_missing = λ x. ground (arith, p.left_missing x, skip.0, skip.1, there.1 x, there.0);
          gap_found = p.gap_found;
          end_gap_found = p.end_gap_found;
        }

pub push-IsPushed :
    (s : Sorter) (f : StreamFrame)
    → IsGood s
    → f.offset + length f.content + 1 < 2 ^ 64
    → IsPushed s f.offset (f.offset + length f.content) (push s f)
unfolding push
push-IsPushed s f g b = elim (Bool-cases (length f.content == 0)) [
  | inr t ↦ rw (push, t) (push_data-IsPushed s f g (ground arith) b)
  | inl t ↦ elim (Bool-cases f.fin_bit) [
    | inr t2 ↦
        rw (push, t, t2)
          (unchanged-IsPushed s _ _ _ g (λ c. ground arith) (λ c. ground arith)
            (λ x l m. ground arith))
    | inl t2 ↦
        rw (push, t, t2)
          record {
            good = record {
              apart = g.apart;
              there =
                  ((refl, λ x l m. ground arith), delete-All (IsThere s.gaps) f.offset _ g.there);
            };
            left_missing = λ x. ground arith;
            gap_found = λ c. ground arith;
            end_gap_found = λ c. ground arith;
          }
  ]
]
