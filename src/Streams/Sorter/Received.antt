-- ===== src/Streams/Sorter/Received.antt =====
-- The bytes that have arrived: the gaps are exactly those that have not.
use mpquic_sbd.Base.{
  ℕ, ◌+◌, ◌^◌, ◌<◌, ◌≡◌, ◌≢◌, refl, ◌∙◌, ap, Bool, false, inl, inr, List, [], ◌∷◌, some, ltb, leb,
  not, ◌&&◌, ◌||◌, length, Option-cases, arith,
}
use mpquic_sbd.Wire.Stream.{StreamFrame}
use mpquic_sbd.Streams.Sorter
use mpquic_sbd.Streams.Sorter.{
  ByteInterval, Sorter, Search, EndGap, Outcome, SortError, delete, delete_all, put, lookup,
  skip_bytes, keep_bytes, find_gap, find_end_gap, fill_gaps, store, push_at, push_new, push_data,
  push, pop, head, new_stream_frame_sorter,
}
use mpquic_sbd.Streams.Sorter.Queue.{delete-All}
use mpquic_sbd.Streams.Sorter.Gaps.{missing}
use mpquic_sbd.Streams.Sorter.Stored.{IsThere, IsGood, push-IsPushed}

pop-IsGood : (s : Sorter) → IsGood s → IsGood (pop s).1
unfolding pop head
pop-IsGood s g = elim (Option-cases (lookup s.read_position s.queued_frames)) [
  | inl e ↦ rw (pop, head, e) g
  | inr (f, e) ↦
      rw (pop, head, e)
        record {
          apart = g.apart;
          there = delete-All (IsThere s.gaps) f.offset s.queued_frames g.there;
        }
]

pop_gaps : (s : Sorter) → (pop s).1.gaps ≡ s.gaps
unfolding pop head
pop_gaps s = elim (Option-cases (lookup s.read_position s.queued_frames)) [
  | inl e ↦ rw (pop, head, e) refl
  | inr (f, e) ↦ rw (pop, head, e) refl
]

-- The calls on the sorter, from a new one on, with the frames that have been pushed.
pub data Run : Sorter → List StreamFrame → Type 0 where
  starts : Run new_stream_frame_sorter []
  pushes :
      {s : Sorter} {frames : List StreamFrame} (f : StreamFrame)
      → Run s frames
      → f.offset + length f.content + 1 < 2 ^ 64
      → Run (push s f).sorter (f ∷ frames)
  pops : {s : Sorter} {frames : List StreamFrame} → Run s frames → Run (pop s).1 frames

abbrev pub arrived : ℕ → List StreamFrame → Bool
arrived x [] = false
arrived x (f ∷ rest) = (leb f.offset x && ltb x (f.offset + length f.content)) || arrived x rest

Run-IsGood : {s : Sorter} {frames : List StreamFrame} → Run s frames → IsGood s
unfolding new_stream_frame_sorter
Run-IsGood starts = record { apart = (omega arith, omega arith, refl); there = tt }
Run-IsGood (pushes {s} f r b) = (push-IsPushed s f (Run-IsGood r) b).good
Run-IsGood (pops {s} r) = pop-IsGood s (Run-IsGood r)

-- After any calls of Push, accepted or failed, and Pop on a new sorter, with frames that end before byte
-- 2^64 - 1, a byte before 2^64 - 1 is in a gap of the sorter exactly if no frame that was pushed has it.
pub Run-missing :
    {s : Sorter} {frames : List StreamFrame} (x : ℕ)
    → Run s frames
    → x + 1 < 2 ^ 64
    → missing x s.gaps ≡ not (arrived x frames)
unfolding new_stream_frame_sorter missing
Run-missing x starts h = ground arith
Run-missing x (pushes {s} f r b) h =
    ground (arith, Run-missing x r h, (push-IsPushed s f (Run-IsGood r) b).left_missing x)
Run-missing x (pops {s} r) h = ap (missing x) (pop_gaps s) ∙ Run-missing x r h

-- In every state that such calls reach, Push of a frame that ends before byte 2^64 - 1 returns neither of
-- the two errors that the code calls a bug: it finds the gap of the frame, and the last one it fills.
pub push-finds_gaps :
    {s : Sorter} {frames : List StreamFrame} (f : StreamFrame)
    → Run s frames
    → f.offset + length f.content + 1 < 2 ^ 64
    → ((push s f).error ≢ some Sorter.no_gap_found)
      × ((push s f).error ≢ some Sorter.no_end_gap_found)
push-finds_gaps {s} f r b =
    let p = push-IsPushed s f (Run-IsGood r) b in (p.gap_found, p.end_gap_found)
