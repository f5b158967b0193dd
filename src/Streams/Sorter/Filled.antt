-- ===== src/Streams/Sorter/Filled.antt =====
-- The second loop of Push over the gaps, and the gaps that it leaves.
use mpquic_sbd.Base.{
  ℕ, ◌+◌, ◌^◌, ◌≤◌, ◌<◌, ◌≡◌, refl, sym, ◌∙◌, subst, Bool, true, false, inl, inr, ◌⊎◌, List, [],
  ◌∷◌, ◌++◌, ltb, leb, ◌==◌, not, ◌&&◌, min, if◌then◌else◌, Bool-cases, arith,
}
use mpquic_sbd.Streams.Sorter.{ByteInterval, EndGap, find_end_gap, fill_gaps}
use mpquic_sbd.Streams.Sorter.Gaps.{missing, Apart, Apart-mono, missing-append, not_missing_below}

-- The loop has not stopped at the end of the last gap, and what it stops at.
pub record IsEnded (end lo : ℕ) (same : Bool) (gap : ByteInterval) (after : List ByteInterval)
    (e : EndGap) : Type 0 where
  pub here : Apart lo (e.end_gap ∷ e.after)
  pub starts : e.end_gap.start < end
  pub same_missing : (x : ℕ) → end ≤ x → missing x (gap ∷ after) ≡ missing x (e.end_gap ∷ e.after)
  pub settled :
      ((end < e.end_gap.end) × (e.removed ≡ false))
      ⊎ ((e.end_gap.end ≤ end)
          × (e.removed ≡ not e.same)
          × ((x : ℕ) → x < end → missing x e.after ≡ false))
  pub fine : e.exhausted ≡ false
  pub first :
      ((e.same ≡ same) × (e.end_gap ≡ gap) × (e.after ≡ after))
      ⊎ ((e.same ≡ false) × (gap.end < e.end_gap.start))

not_same :
    {end lo : ℕ} {gap : ByteInterval} {after : List ByteInterval} {e : EndGap}
    → IsEnded end lo false gap after e
    → e.same ≡ false
not_same n = elim n.first [ inl (s, g, rest) ↦ s | inr (s, rest) ↦ s ]

pub find_end_gap-IsEnded :
    (end lo : ℕ) (gap : ByteInterval) (same : Bool) (after : List ByteInterval) (deleted : List ℕ)
    → Apart lo (gap ∷ after)
    → gap.start < end
    → end + 1 < 2 ^ 64
    → IsEnded end lo same gap after (find_end_gap end gap same after deleted)
unfolding find_end_gap missing
find_end_gap-IsEnded end lo gap same [] deleted a s b = record {
  here = a;
  starts = s;
  same_missing = λ x k. refl;
  settled = inl (omega (arith, a.2), refl);
  fine = ground (arith, a.2);
  first = inl (refl, refl, refl);
}
find_end_gap-IsEnded end lo gap same (next ∷ rest) deleted a s b =
    elim (Bool-cases (leb gap.end end && not (leb end next.start))) [
      | inl e ↦
          let n =
            find_end_gap-IsEnded end (gap.end + 1) next false rest (gap.end ∷ deleted) a.2
              (ground arith) b in
          rw (find_end_gap, e)
            record {
              here = (omega (arith, n.here.0, a.0, a.1), n.here.1, n.here.2);
              starts = n.starts;
              same_missing = λ x k. ground (arith, n.same_missing x k);
              settled = n.settled;
              fine = n.fine;
              first = inr (not_same n, omega (arith, n.here.0));
            }
      | inr e ↦
          rw (find_end_gap, e)
            record {
              here = a;
              starts = s;
              same_missing = λ x k. refl;
              settled = elim (Bool-cases (leb gap.end end)) [
                | inl t ↦ inr (
                  ground arith,
                  ground arith,
                  λ x k.
                      ground (
                        arith,
                        not_missing_below x end (next ∷ rest) (ground arith, a.2.1, a.2.2) k,
                      ),
                )
                | inr t ↦ inl (ground arith, ground arith)
              ];
              fine = refl;
              first = inl (refl, refl, refl);
            }
    ]

-- The part of the first gap before the frame, and what the frame leaves from its end on.
abbrev left : ByteInterval → ℕ → List ByteInterval
left gap start = if start == gap.start then [] else record gap { end = start } ∷ []

abbrev right : EndGap → ℕ → List ByteInterval
right e end = if ltb end e.end_gap.end then record e.end_gap { start = end } ∷ e.after else e.after

fill_gaps-around :
    (gap : ByteInterval) (e : EndGap) (start end : ℕ)
    → end ≤ e.end_gap.end
    → ((e.same ≡ true) × (e.end_gap ≡ gap)) ⊎ ((e.same ≡ false) × (gap.end ≤ end))
    → (end < e.end_gap.end) ⊎ (e.removed ≡ not e.same)
    → fill_gaps gap e start end ≡ left gap start ++ right e end
unfolding fill_gaps
fill_gaps-around gap e start end h (inl (s, g)) r = ground arith
fill_gaps-around gap e start end h (inr (s, g)) r = ground arith

-- What is left of the gaps from the first one on, once the bytes of the frame are filled.
pub record IsFilled (start end bound : ℕ) (gap : ByteInterval) (after rest : List ByteInterval)
    : Type 0 where
  pub apart : Apart bound rest
  pub filled :
      (x : ℕ) → missing x rest ≡ (missing x (gap ∷ after) && not (leb start x && ltb x end))

module _ (start end bound : ℕ) (gap : ByteInterval) (after : List ByteInterval) (e : EndGap)
    (a : Apart bound (gap ∷ after)) (n : IsEnded end bound true gap after e)
    (inside : gap.start ≤ start) (meets : start ≤ gap.end) (nonempty : start < end)
    (counted : end + 1 < 2 ^ 64) where
  abbrev stop : ℕ
  stop = min end e.end_gap.end

  right-Apart : (m : ℕ) → m ≤ end → m ≤ e.end_gap.end + 1 → Apart m (right e stop)
  right-Apart m h k = elim n.settled [
    | inl (short, _) ↦
        subst (λ r. Apart m r) (sym (right_short short)) (omega arith, omega arith, n.here.2)
    | inr (long, _, _) ↦
        subst (λ r. Apart m r) (sym (right_long long))
          (Apart-mono m (e.end_gap.end + 1) e.after k (omega arith) n.here.2)
  ]
    where
      right_short : end < e.end_gap.end → right e stop ≡ record e.end_gap { start = stop } ∷ e.after
      right_short h = ground arith

      right_long : e.end_gap.end ≤ end → right e stop ≡ e.after
      right_long h = ground arith

  start_bound : start ≤ e.end_gap.end
  start_bound = elim n.first [
    | inl (_, g, _) ↦ ground (arith, g)
    | inr (_, g) ↦ omega (arith, n.here.1, g)
  ]

  around-Apart : Apart bound (left gap start ++ right e stop)
  around-Apart = elim (Bool-cases (start == gap.start)) [
    | inl t ↦ rw t (right-Apart bound (omega (arith, a.0)) (omega (arith, n.here.0, n.here.1)))
    | inr t ↦
        rw t (a.0, ground arith, right-Apart (start + 1) (omega arith) (omega (arith, start_bound)))
  ]

  right-missing :
      (x : ℕ) → missing x (right e stop) ≡ (leb end x && missing x (e.end_gap ∷ e.after))
  unfolding missing
  right-missing x = elim n.settled [
    | inl (short, _) ↦ ground (arith, not_missing_below x (e.end_gap.end + 1) e.after n.here.2)
    | inr (long, _, none_before) ↦ ground (arith, none_before x)
  ]

  around-missing :
      (x : ℕ)
      → missing x (left gap start ++ right e stop)
        ≡ (missing x (gap ∷ after) && not (leb start x && ltb x end))
  unfolding missing
  around-missing x =
      missing-append x (left gap start) (right e stop)
      ∙ ground
          (arith, right-missing x, n.same_missing x, not_missing_below x (gap.end + 1) after a.2)

  pub fill_gaps-IsFilled : IsFilled start end bound gap after (fill_gaps gap e start stop)
  fill_gaps-IsFilled =
      subst (λ r. IsFilled start end bound gap after r) (sym around)
        record { apart = around-Apart; filled = around-missing }
    where
      at_end : ((e.same ≡ true) × (e.end_gap ≡ gap)) ⊎ ((e.same ≡ false) × (gap.end ≤ stop))
      at_end = elim n.first [
        | inl (s, g, _) ↦ inl (s, g)
        | inr (s, g) ↦ inr (s, omega (arith, n.starts, n.here.1))
      ]

      settles : (stop < e.end_gap.end) ⊎ (e.removed ≡ not e.same)
      settles = elim n.settled [ inl (short, _) ↦ inl (omega arith) | inr (long, r, _) ↦ inr r ]

      around : fill_gaps gap e start stop ≡ left gap start ++ right e stop
      around = fill_gaps-around gap e start stop (omega arith) at_end settles
