-- ===== src/Streams/Sorter/Gaps.antt =====
-- The gaps of the sorter: what Push leaves of them, and which bytes are in none of them.

use mpquic_sbd.Base.{
  ℕ, ◌+◌, ◌^◌, ◌≤◌, ◌<◌, ◌≡◌, refl, ap, Bool, false, inl, inr, List, [], ◌∷◌, ◌++◌, ltb, leb, ◌&&◌,
  ◌||◌, Bool-cases, arith,
}
use mpquic_sbd.Streams.Sorter
use mpquic_sbd.Streams.Sorter.{ByteInterval, Search, EndGap, find_gap, find_end_gap, fill_gaps}

-- The byte is in one of the gaps.
unfoldable pub missing : ℕ → List ByteInterval → Bool
missing x [] = false
missing x (g ∷ rest) = (leb g.start x && ltb x g.end) || missing x rest

-- The gaps are nonempty, in order and apart from each other; they start at `lo` or later, and the last
-- ends at the maximal byte count.
abbrev pub Apart : ℕ → List ByteInterval → Type 0
Apart lo [] = lo ≡ 2 ^ 64
Apart lo (g ∷ rest) = (lo ≤ g.start) × (g.start < g.end) × Apart (g.end + 1) rest

pub missing-append :
    (x : ℕ) (xs ys : List ByteInterval) → missing x (xs ++ ys) ≡ (missing x xs || missing x ys)
unfolding missing
missing-append x [] ys = refl
missing-append x (g ∷ rest) ys = ground (arith, missing-append x rest ys)

pub not_missing_below :
    (x lo : ℕ) (gaps : List ByteInterval) → Apart lo gaps → x < lo → missing x gaps ≡ false
unfolding missing
not_missing_below x lo [] a h = refl
not_missing_below x lo (g ∷ rest) a h = ground (arith, not_missing_below x (g.end + 1) rest a.2)

pub Apart-mono :
    (m n : ℕ) (gaps : List ByteInterval) → m ≤ n → n < 2 ^ 64 → Apart n gaps → Apart m gaps
Apart-mono m n [] h b a = absurd (omega (arith, a))
Apart-mono m n (g ∷ rest) h b a = (omega (arith, a.0), a.1, a.2)

pub Apart-bound : (lo : ℕ) (gaps : List ByteInterval) → Apart lo gaps → lo ≤ 2 ^ 64
Apart-bound lo [] a = omega (arith, a)
Apart-bound lo (g ∷ rest) a = omega (arith, a.0, a.1, Apart-bound (g.end + 1) rest a.2)

-- The gap that the first loop stops at, between the gaps that end before the frame and the rest.
pub record IsFound (start end lo : ℕ) (before : List ByteInterval) (gap : ByteInterval)
    (after : List ByteInterval) : Type 0 where
  pub bound : ℕ
  pub here : Apart bound (gap ∷ after)
  pub front : (rest : List ByteInterval) → Apart bound rest → Apart lo (before ++ rest)
  pub before_start : (x : ℕ) → start ≤ x → missing x before ≡ false
  pub starts : gap.start < end
  pub ends : start ≤ gap.end

-- How the first loop ends.
abbrev pub IsSearched : ℕ → ℕ → ℕ → List ByteInterval → Search → Type 0
IsSearched start end lo gaps Sorter.duplicate =
    (x : ℕ) → start ≤ x → x < end → missing x gaps ≡ false
IsSearched start end lo gaps Sorter.no_gap = 2 ^ 64 ≤ start + 1
IsSearched start end lo gaps (Sorter.found before gap after) =
    IsFound start end lo before gap after × (gaps ≡ before ++ (gap ∷ after))

after_gap-IsSearched :
    (start end lo : ℕ) (g : ByteInterval) (rest : List ByteInterval) (later : Search)
    → Apart lo (g ∷ rest)
    → g.end < start
    → IsSearched start end (g.end + 1) rest later
    → IsSearched start end lo (g ∷ rest) (Sorter.after_gap g later)
unfolding missing
after_gap-IsSearched start end lo g rest Sorter.duplicate a h i = λ x k k2. ground (arith, i x k k2)
after_gap-IsSearched start end lo g rest Sorter.no_gap a h i = i
after_gap-IsSearched start end lo g rest (Sorter.found before gap after) a h (i, e) = (
  record {
    bound = i.bound;
    here = i.here;
    front = λ r k. (a.0, a.1, i.front r k);
    before_start = λ x k. ground (arith, i.before_start x k);
    starts = i.starts;
    ends = i.ends;
  },
  ap (◌∷◌ g) e,
)

pub find_gap-IsSearched :
    (start end lo : ℕ) (gaps : List ByteInterval)
    → Apart lo gaps
    → lo ≤ start + 1
    → start < end
    → IsSearched start end lo gaps (find_gap start end gaps)
unfolding find_gap missing
find_gap-IsSearched start end lo [] a l h = omega (arith, a)
find_gap-IsSearched start end lo (g ∷ rest) a l h = elim (Bool-cases (leb end g.start)) [
  | inl e ↦
      rw (find_gap, e)
        (λ x k k2.
          ground
            (arith, not_missing_below x g.start (g ∷ rest) (omega arith, a.1, a.2) (ground arith)))
  | inr e ↦ elim (Bool-cases (ltb g.start end && leb start g.end)) [
    | inl e2 ↦
        rw (find_gap, e, e2)
          (
            record {
              bound = lo;
              here = a;
              front = λ r k. k;
              before_start = λ x k. refl;
              starts = ground arith;
              ends = ground arith;
            },
            refl,
          )
    | inr e2 ↦
        rw (find_gap, e, e2)
          (after_gap-IsSearched start end lo g rest (find_gap start end rest) a (ground arith)
            (find_gap-IsSearched start end (g.end + 1) rest a.2 (ground arith) h))
  ]
]
