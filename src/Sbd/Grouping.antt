-- ===== src/Sbd/Grouping.antt =====
-- quic-go/flow_grouping.go: the paths are split into groups, by the statistics of each path.
-- A FlowGroups is the list of its path IDs; the groups share the statistics, which are one store here.
-- float64 is a parameter, and so is sort.Slice, of Go's library.
pub mod Partition
pub mod Hysteresis
pub mod Neighbours
use mpquic_sbd.Base.{
  ℕ, Bool, true, false, ◌&&◌, ◌||◌, List, [], ◌∷◌, ◌++◌, map, ◌==◌, if◌then◌else◌,
}

-- What the code uses of float64; `ratio a b` is the literal a / b.
pub record Floats : Type 1 where
  pub Float : Type 0
  pub lt : Float → Float → Bool
  pub sub : Float → Float → Float
  pub mul : Float → Float → Float
  pub ratio : ℕ → ℕ → Float

-- The struct `statistics`.
pub record Statistics (F : Type 0) : Type 0 where
  pub mean_owd : F
  pub mean_delay : F
  pub skewness : F
  pub varest : F
  pub freqest : F
  pub loss : F
  pub pb : Bool

-- The strings that `splitFlows` tells apart, and the flags 'a' and 'p'.
pub data Key : Type 0 where
  freq_key var_key skew_key loss_key : Key

pub data Flag : Type 0 where
  absolute relative : Flag

-- `sort.Slice(s, less)`, where `less` compares the elements at two indices.
abbrev pub Sort : Type 0
Sort = (ℕ → ℕ → Bool) → List ℕ → List ℕ

unfoldable pub joined {ℓ} : {A : Type ℓ} → List (List A) → List A
joined [] = []
joined (x ∷ rest) = x ++ joined rest

module _ (fl : Floats) where
  abbrev pub Stats : Type 0
  Stats = Statistics fl.Float

  abbrev pub Store : Type 0
  Store = ℕ → Stats

  abbrev pub congestion_threshold : fl.Float
  congestion_threshold = fl.ratio 1 10

  abbrev pub hysteresis_threshold : fl.Float
  hysteresis_threshold = fl.ratio 3 10

  abbrev pub loss_threshold : fl.Float
  loss_threshold = fl.ratio 1 10

  -- The measured statistics of the paths, with no path marked as congested.
  abbrev pub setup : Store → Store
  setup measured k = record (measured k) { pb = false }

  -- `fg.pathID`, from the paths of the session.
  unfoldable pub other_paths : List ℕ → List ℕ
  other_paths [] = []
  other_paths (k ∷ rest) = if k == 0 then other_paths rest else k ∷ other_paths rest

  unfoldable pub is_sharing : Stats → Bool
  is_sharing s =
      fl.lt s.skewness congestion_threshold
      || ((fl.lt s.skewness hysteresis_threshold && s.pb) || fl.lt loss_threshold s.loss)

  -- `fg.statistics[k].PB = b`
  unfoldable pub set_pb : Store → ℕ → Bool → Store
  set_pb store k b j = if j == k then record (store j) { pb = b } else store j

  pub record Split : Type 0 where
    pub congested : List ℕ
    pub not_congested : List ℕ
    pub store : Store

  abbrev pub put_flow : Bool → ℕ → Split → Split
  put_flow true k s = record s { congested = k ∷ s.congested }
  put_flow false k s = record s { not_congested = k ∷ s.not_congested }

  unfoldable pub split_congestion : Store → List ℕ → Split
  split_congestion store [] = record { congested = []; not_congested = []; store = store }
  split_congestion store (k ∷ rest) =
      let sharing = is_sharing (store k) in
      put_flow sharing k (split_congestion (set_pb store k sharing) rest)

  abbrev pub key_value : Key → Stats → fl.Float
  key_value freq_key s = s.freqest
  key_value var_key s = s.varest
  key_value skew_key s = s.skewness
  key_value loss_key s = s.loss

  abbrev pub current_threshold : Key → Stats → fl.Float → fl.Float
  current_threshold var_key s delta_thresh = fl.mul s.varest delta_thresh
  current_threshold key s delta_thresh = fl.ratio 0 1

  unfoldable pub belongs_last_group : Key → fl.Float → Flag → Stats → Stats → Bool
  belongs_last_group key delta_thresh absolute prev s =
      fl.lt (fl.sub (key_value key prev) (key_value key s)) delta_thresh
  belongs_last_group key delta_thresh relative prev s =
      fl.lt (fl.sub (key_value key prev) (key_value key s))
        (current_threshold key prev delta_thresh)

  -- The loop of `splitFlows`, for any test of two neighbours; `paths` is the group that is open.
  unfoldable pub split_loop : (ℕ → ℕ → Bool) → ℕ → List ℕ → List ℕ → List (List ℕ)
  split_loop belongs prev paths [] = paths ∷ []
  split_loop belongs prev paths (k ∷ rest) = elim (belongs prev k) [
    | true ↦ split_loop belongs k (paths ++ (k ∷ [])) rest
    | false ↦ paths ∷ split_loop belongs k (k ∷ []) rest
  ]

  unfoldable pub split_sorted : (ℕ → ℕ → Bool) → List ℕ → List (List ℕ)
  split_sorted belongs [] = []
  split_sorted belongs (k ∷ rest) = split_loop belongs k (k ∷ []) rest

  module _ (sort_slice : Sort) where
    -- In descending order of the key.
    unfoldable pub sort_flows : Store → Key → List ℕ → List ℕ
    sort_flows store key =
        sort_slice (λ j k. fl.lt (key_value key (store k)) (key_value key (store j)))

    unfoldable pub split_flows : Store → Key → fl.Float → Flag → List ℕ → List (List ℕ)
    split_flows store key delta_thresh flag [] = []
    split_flows store key delta_thresh flag (k ∷ rest) =
        split_sorted (λ i j. belongs_last_group key delta_thresh flag (store i) (store j))
          (sort_flows store key (k ∷ rest))

    unfoldable pub has_high_loss : Store → List ℕ → Bool
    has_high_loss store [] = false
    has_high_loss store (k ∷ rest) =
        if fl.lt loss_threshold (store k).loss then true else has_high_loss store rest

    unfoldable pub split_skewness : Store → List ℕ → List (List ℕ)
    split_skewness store ids =
        if has_high_loss store ids
        then split_flows store loss_key (fl.ratio 1 10) absolute ids
        else split_flows store skew_key (fl.ratio 15 100) absolute ids

    unfoldable pub process_owds : Store → List ℕ → List (List (List ℕ))
    process_owds store ids =
        let split = split_congestion store ids in
        let groups_freq =
          split_flows split.store freq_key (fl.ratio 1 10) absolute split.congested in
        let groups_var =
          map (split_flows split.store var_key (fl.ratio 1 10) relative) groups_freq in
        map (split_skewness split.store) (joined groups_var)

    -- The method `FlowGroups`, for the measured statistics and the paths of the session.
    unfoldable pub flow_groups : Store → List ℕ → List (List (List ℕ))
    flow_groups measured paths = process_owds (setup measured) (other_paths paths)
