-- ===== src/Sbd/Grouping/Neighbours.antt =====
-- What the loop of `splitFlows` makes of neighbours.
use mpquic_sbd.Base.{
  ℕ, ◌≡◌, refl, subst, inl, inr, Bool, true, not, ◌&&◌, List, [], ◌∷◌, ◌++◌, Bool-cases, arith,
}
use mpquic_sbd.Sbd.Grouping
use mpquic_sbd.Sbd.Grouping.{Floats, Sort, Key, Flag}

-- Each flow of the group belongs with the one before it.
abbrev pub chained : (ℕ → ℕ → Bool) → List ℕ → Bool
chained b [] = true
chained b (x ∷ []) = true
chained b (x ∷ y ∷ rest) = b x y && chained b (y ∷ rest)

-- The first flow of the second group does not belong with the last one of the first.
abbrev pub apart : (ℕ → ℕ → Bool) → List ℕ → List ℕ → Bool
apart b (x ∷ []) (y ∷ rest) = not (b x y)
apart b (x ∷ y ∷ rest) h = apart b (y ∷ rest) h
apart b g h = true

abbrev pub runs : (ℕ → ℕ → Bool) → List (List ℕ) → Bool
runs b [] = true
runs b (g ∷ []) = chained b g
runs b (g ∷ h ∷ rest) = chained b g && (apart b g h && runs b (h ∷ rest))

chained-snoc :
    (b : ℕ → ℕ → Bool) (init : List ℕ) (p k : ℕ)
    → chained b (init ++ (p ∷ [])) ≡ true
    → b p k ≡ true
    → chained b ((init ++ (p ∷ [])) ++ (k ∷ [])) ≡ true
chained-snoc b [] p k c e = rw e refl
chained-snoc b (x ∷ []) p k c e = ground arith
chained-snoc b (x ∷ y ∷ rest) p k c e = ground (arith, chained-snoc b (y ∷ rest) p k)

apart-snoc :
    (b : ℕ → ℕ → Bool) (init : List ℕ) (p k : ℕ) (rest : List ℕ)
    → apart b (init ++ (p ∷ [])) (k ∷ rest) ≡ not (b p k)
apart-snoc b [] p k rest = refl
apart-snoc b (x ∷ []) p k rest = refl
apart-snoc b (x ∷ y ∷ init) p k rest = apart-snoc b (y ∷ init) p k rest

module _ (fl : Floats) where
  split_loop_first :
      (b : ℕ → ℕ → Bool) (prev x : ℕ) (xs l : List ℕ)
      → (ys : List ℕ) × (more : List (List ℕ)) × (Grouping.split_loop fl b prev (x ∷ xs) l
          ≡ (x ∷ ys) ∷ more)
  unfolding Grouping.split_loop
  split_loop_first b prev x xs [] = (xs, [], refl)
  split_loop_first b prev x xs (k ∷ rest) = elim (Bool-cases (b prev k)) [
    | inl e ↦ rw (Grouping.split_loop, e) (split_loop_first b k x (xs ++ (k ∷ [])) rest)
    | inr e ↦ rw (Grouping.split_loop, e) (xs, Grouping.split_loop fl b k (k ∷ []) rest, refl)
  ]

  split_loop-runs :
      (b : ℕ → ℕ → Bool) (prev : ℕ) (init l : List ℕ)
      → chained b (init ++ (prev ∷ [])) ≡ true
      → runs b (Grouping.split_loop fl b prev (init ++ (prev ∷ [])) l) ≡ true
  unfolding Grouping.split_loop
  split_loop-runs b prev init [] c = c
  split_loop-runs b prev init (k ∷ rest) c = elim (Bool-cases (b prev k)) [
    | inl e ↦
        rw (Grouping.split_loop, e)
          (split_loop-runs b k (init ++ (prev ∷ [])) rest (chained-snoc b init prev k c e))
    | inr e ↦
        let (ys, more, first) = split_loop_first b k k [] rest in
        let later : runs b ((k ∷ ys) ∷ more) ≡ true =
          subst (λ t. runs b t ≡ true) first (split_loop-runs b k [] rest refl) in
        rw (Grouping.split_loop, e, first, c, apart-snoc b init prev k ys, e) later
  ]

  split_sorted-runs : (b : ℕ → ℕ → Bool) (l : List ℕ) → runs b (Grouping.split_sorted fl b l) ≡ true
  unfolding Grouping.split_sorted
  split_sorted-runs b [] = refl
  split_sorted-runs b (x ∷ xs) = split_loop-runs b x [] xs refl

-- In the groups that splitFlows makes each flow belongs, by its test on two flows, with the one before
-- it in its group, and the first flow of a group does not belong with the last one of the group before.
pub split_flows-runs :
    (fl : Floats) (sort_slice : Sort) (store : Grouping.Store fl) (key : Key)
    (delta_thresh : fl.Float) (flag : Flag) (ids : List ℕ)
    → runs
        (λ j k. Grouping.belongs_last_group fl key delta_thresh flag (store j) (store k))
        (Grouping.split_flows fl sort_slice store key delta_thresh flag ids)
      ≡ true
unfolding Grouping.split_flows
split_flows-runs fl sort_slice store key d flag [] = refl
split_flows-runs fl sort_slice store key d flag (k ∷ rest) =
    split_sorted-runs fl _ (Grouping.sort_flows fl sort_slice store key (k ∷ rest))
