-- ===== src/Sbd/Grouping/Partition.antt =====
-- Every path is in exactly one group, or is not congested.
use mpquic_sbd.Base.{
  ℕ, ◌≡◌, refl, ap, ◌∙◌, inl, inr, Bool, true, false, List, [], ◌∷◌, ◌++◌, map, Bool-cases,
}
use mathlib.Core.List.{Perm, perm_middle}
use mathlib.Core.List.Perm
use mathlib.Core.List.{append_assoc}
use mpquic_sbd.Sbd.Grouping
use mpquic_sbd.Sbd.Grouping.{Floats, Sort, Key, Flag, joined}

joined-append {ℓ} :
    {A : Type ℓ} (xs ys : List (List A)) → joined (xs ++ ys) ≡ joined xs ++ joined ys
unfolding joined
joined-append [] ys = refl
joined-append (x ∷ xs) ys = rw (joined-append xs ys, append_assoc) refl

-- If a function splits lists, what it makes of the parts of a list are parts of the list again.
joined-map :
    (f : List ℕ → List (List ℕ)) (xss : List (List ℕ))
    → ((xs : List ℕ) → Perm (joined (f xs)) xs)
    → Perm (joined (joined (map f xss))) (joined xss)
unfolding joined
joined-map f [] p = Perm.refl []
joined-map f (xs ∷ xss) p =
    rw (joined-append (f xs) (joined (map f xss))) (Perm.append (p xs) (joined-map f xss p))

module _ (fl : Floats) where
  joined-split_loop :
      (belongs : ℕ → ℕ → Bool) (prev : ℕ) (paths l : List ℕ)
      → joined (Grouping.split_loop fl belongs prev paths l) ≡ paths ++ l
  unfolding Grouping.split_loop joined
  joined-split_loop belongs prev paths [] = refl
  joined-split_loop belongs prev paths (k ∷ rest) = elim (Bool-cases (belongs prev k)) [
    | inl e ↦
        rw (Grouping.split_loop, e)
          (joined-split_loop belongs k (paths ++ (k ∷ [])) rest ∙ append_assoc paths (k ∷ []) rest)
    | inr e ↦
        rw (Grouping.split_loop, e)
          (ap (λ t. paths ++ t) (joined-split_loop belongs k (k ∷ []) rest))
  ]

  joined-split_sorted :
      (belongs : ℕ → ℕ → Bool) (l : List ℕ) → joined (Grouping.split_sorted fl belongs l) ≡ l
  unfolding Grouping.split_sorted joined
  joined-split_sorted belongs [] = refl
  joined-split_sorted belongs (k ∷ rest) = joined-split_loop belongs k (k ∷ []) rest

  put_flow_partition :
      (sharing : Bool) (k : ℕ) (s : Grouping.Split fl) (ids : List ℕ)
      → Perm (s.congested ++ s.not_congested) ids
      → let after = Grouping.put_flow fl sharing k s in
        Perm (after.congested ++ after.not_congested) (k ∷ ids)
  put_flow_partition true k s ids p = Perm.cons k p
  put_flow_partition false k s ids p =
      Perm.trans (perm_middle s.congested s.not_congested) (Perm.cons k p)

  -- SplitCongestion puts every path on one of its two sides.
  split_congestion_partition :
      (store : Grouping.Store fl) (ids : List ℕ)
      → let s = Grouping.split_congestion fl store ids in Perm (s.congested ++ s.not_congested) ids
  unfolding Grouping.split_congestion
  split_congestion_partition store [] = Perm.refl []
  split_congestion_partition store (k ∷ rest) =
      let sharing = Grouping.is_sharing fl (store k) in
      put_flow_partition sharing k _ rest
        (split_congestion_partition (Grouping.set_pb fl store k sharing) rest)

  module _ (sort_slice : Sort)
      (sorts : (less : ℕ → ℕ → Bool) (l : List ℕ) → Perm (sort_slice less l) l) where
    joined-split_flows :
        (store : Grouping.Store fl) (key : Key) (delta_thresh : fl.Float) (flag : Flag)
        (ids : List ℕ)
        → Perm (joined (Grouping.split_flows fl sort_slice store key delta_thresh flag ids)) ids
    unfolding Grouping.split_flows Grouping.sort_flows joined
    joined-split_flows store key d flag [] = Perm.refl []
    joined-split_flows store key d flag (k ∷ rest) = rw (joined-split_sorted) (sorts _ (k ∷ rest))

    joined-split_skewness :
        (store : Grouping.Store fl) (ids : List ℕ)
        → Perm (joined (Grouping.split_skewness fl sort_slice store ids)) ids
    unfolding Grouping.split_skewness
    joined-split_skewness store ids =
        elim (Bool-cases (Grouping.has_high_loss fl sort_slice store ids)) [
          | inl e ↦ rw e (joined-split_flows store _ _ _ ids)
          | inr e ↦ rw e (joined-split_flows store _ _ _ ids)
        ]

    joined-process_owds :
        (store : Grouping.Store fl) (ids : List ℕ)
        → Perm
            (joined (joined (Grouping.process_owds fl sort_slice store ids)))
            (Grouping.split_congestion fl store ids).congested
    unfolding Grouping.process_owds
    joined-process_owds store ids =
        let s = Grouping.split_congestion fl store ids in
        Perm.trans (joined-map _ _ (joined-split_skewness s.store)) (
          Perm.trans (joined-map _ _ (joined-split_flows s.store _ _ _))
            (joined-split_flows s.store _ _ _ s.congested))

-- If sort.Slice permutes its slice, the groups that the method FlowGroups returns, at every level of
-- their nesting, and the paths that are not congested, together hold every path of the session other
-- than path 0 exactly as often as the session has it.
pub flow_groups_partition :
    (fl : Floats) (sort_slice : Sort)
    → ((less : ℕ → ℕ → Bool) (l : List ℕ) → Perm (sort_slice less l) l)
    → (measured : Grouping.Store fl) (paths : List ℕ)
    → Perm
        (joined (joined (Grouping.flow_groups fl sort_slice measured paths))
          ++ (Grouping.split_congestion fl
              (Grouping.setup fl measured)
              (Grouping.other_paths fl paths)).not_congested)
        (Grouping.other_paths fl paths)
unfolding Grouping.flow_groups
flow_groups_partition fl sort_slice sorts measured paths =
    let ids = Grouping.other_paths fl paths in
    let store = Grouping.setup fl measured in
    Perm.trans (Perm.append_right _ (joined-process_owds fl sort_slice sorts store ids))
      (split_congestion_partition fl store ids)
