-- ===== src/Examples/Sbd.antt =====
-- The grouping of paths at concrete values: statistics in thousandths.
use mpquic_sbd.Base.{
  ℕ, ◌+◌, ◌-◌, ◌*◌, ◌/◌, ◌≡◌, Bool, true, false, List, [], ◌∷◌, ◌++◌, ltb, ◌==◌, if◌then◌else◌,
}
use mathlib.Core.List.{Perm}
use mathlib.Core.List.Perm
use mpquic_sbd.Sbd.Grouping
use mpquic_sbd.Sbd.Grouping.{freq_key, absolute, Floats, Statistics, Sort, joined}
use mpquic_sbd.Sbd.Grouping.Partition.{flow_groups_partition}
use mpquic_sbd.Sbd.Grouping.Neighbours.{runs, split_flows-runs}
use mpquic_sbd.Sbd.Grouping.Hysteresis.{keep, steady, split_congestion-setup}

abbrev thousandths : Floats
thousandths = record {
  Float = ℕ;
  lt = ltb;
  sub = λ a b. a - b;
  mul = λ a b. a * b / 1000;
  ratio = λ a b. a * 1000 / b;
}

abbrev insert : (ℕ → ℕ → Bool) → ℕ → List ℕ → List ℕ
insert less k [] = k ∷ []
insert less k (j ∷ rest) = if less j k then j ∷ insert less k rest else k ∷ j ∷ rest

abbrev insertion_sort : Sort
insertion_sort less [] = []
insertion_sort less (k ∷ rest) = insert less k (insertion_sort less rest)

either_order-Perm :
    (b : Bool) (k j : ℕ) (rest inserted : List ℕ)
    → Perm inserted (k ∷ rest)
    → Perm (if b then j ∷ inserted else k ∷ j ∷ rest) (k ∷ j ∷ rest)
either_order-Perm true k j rest inserted p = Perm.trans (Perm.cons j p) (Perm.swap k j rest)
either_order-Perm false k j rest inserted p = Perm.refl (k ∷ j ∷ rest)

insert-Perm : (less : ℕ → ℕ → Bool) (k : ℕ) (l : List ℕ) → Perm (insert less k l) (k ∷ l)
insert-Perm less k [] = Perm.refl (k ∷ [])
insert-Perm less k (j ∷ rest) =
    either_order-Perm (less j k) k j rest (insert less k rest) (insert-Perm less k rest)

insertion_sort-Perm : (less : ℕ → ℕ → Bool) (l : List ℕ) → Perm (insertion_sort less l) l
insertion_sort-Perm less [] = Perm.refl []
insertion_sort-Perm less (k ∷ rest) =
    Perm.trans (insert-Perm less k (insertion_sort less rest))
      (Perm.cons k (insertion_sort-Perm less rest))

-- Paths 1 and 3 are congested, path 5 is not.
abbrev measured : ℕ → Statistics ℕ
measured k = record {
  mean_owd = 20;
  mean_delay = 20;
  skewness = if k == 5 then 500 else 50;
  varest = 100 + k;
  freqest = 10 * k;
  loss = 0;
  pb = true;
}

abbrev paths : List ℕ
paths = 0 ∷ 1 ∷ 5 ∷ 3 ∷ []

flow_groups_partition_example :
    Perm
      (joined (joined (Grouping.flow_groups thousandths insertion_sort measured paths))
        ++ (Grouping.split_congestion thousandths
            (Grouping.setup thousandths measured)
            (Grouping.other_paths thousandths paths)).not_congested)
      (Grouping.other_paths thousandths paths)
flow_groups_partition_example =
    flow_groups_partition thousandths insertion_sort insertion_sort-Perm measured paths

split_congestion-setup_example :
    (Grouping.split_congestion thousandths (Grouping.setup thousandths measured) paths).congested
    ≡ keep (λ k. steady thousandths (measured k)) paths
split_congestion-setup_example = split_congestion-setup thousandths measured paths

split_flows-runs_example :
    runs
      (λ j k.
        Grouping.belongs_last_group thousandths freq_key 15 absolute (measured j) (measured k))
      (Grouping.split_flows thousandths insertion_sort measured freq_key 15 absolute paths)
    ≡ true
split_flows-runs_example =
    split_flows-runs thousandths insertion_sort measured freq_key 15 absolute paths
