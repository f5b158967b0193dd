-- ===== src/Session/Scheduler.antt =====
-- quic-go/scheduler.go: the path that the next packet is sent on. The paths come in the order in which Go
-- iterates over the map.
pub mod Compare
pub mod Choice
use mpquic_sbd.Base.{
  ℕ, ◌+◌, ◌-◌, ◌^◌, Bool, true, false, not, ◌&&◌, ◌||◌, List, [], ◌∷◌, Option, none, some, ltb, leb,
  ◌==◌, length, if◌then◌else◌,
}

-- What the scheduler reads of a path; a time is a number of nanoseconds.
pub record PathView : Type 0 where
  pub path_id : ℕ
  pub sending_allowed : Bool
  pub potentially_failed : Bool
  pub smoothed_rtt : ℕ

-- The map of quotas has 0 for a path that it does not have.
unfoldable pub quota_of : List (ℕ × ℕ) → ℕ → ℕ
quota_of [] id = 0
quota_of ((key, n) ∷ rest) id = if id == key then n else quota_of rest id

unfoldable pub has_quota : List (ℕ × ℕ) → ℕ → Bool
has_quota [] id = false
has_quota ((key, n) ∷ rest) id = if id == key then true else has_quota rest id

-- The quota of a path that has none is set to 0.
unfoldable pub with_quota : List (ℕ × ℕ) → ℕ → List (ℕ × ℕ)
with_quota quotas id = if has_quota quotas id then quotas else (id, 0) ∷ quotas

unfoldable pub find_path : List PathView → ℕ → Option PathView
find_path [] id = none
find_path (p ∷ rest) id = if p.path_id == id then some p else find_path rest id

-- What the loops do not pass over.
unfoldable pub is_usable : Bool → PathView → Bool
is_usable has_retransmission p =
    (has_retransmission || p.sending_allowed) && (not p.potentially_failed && not (p.path_id == 0))

-- A choice, with the quotas that it leaves; a nil pointer that is followed is a panic.
pub data Selected : Type 0 where
  panics : Selected
  selects : Option PathView → List (ℕ × ℕ) → Selected

-- With one path at most there is only the initial one.
unfoldable pub select_initial : Bool → List PathView → List (ℕ × ℕ) → Selected
select_initial has_retransmission paths quotas = elim (find_path paths 0) [
  | none ↦ if has_retransmission then selects none quotas else panics
  | some p ↦
      if not has_retransmission && not p.sending_allowed
      then selects none quotas
      else selects (some p) quotas
]

-- The loop of selectPathRoundRobin, with the path that is selected so far and its quota.
unfoldable pub least_quota : Bool → List PathView → Option PathView → ℕ → List (ℕ × ℕ) → Selected
least_quota has_retransmission [] selected lower quotas = selects selected quotas
least_quota has_retransmission (p ∷ rest) selected lower quotas =
    let set : List (ℕ × ℕ) = with_quota quotas p.path_id in
    let current : ℕ = quota_of quotas p.path_id in
    let passed = least_quota has_retransmission rest selected lower quotas in
    let kept = least_quota has_retransmission rest selected lower set in
    let taken = least_quota has_retransmission rest (some p) current set in
    if is_usable has_retransmission p then (if ltb current lower then taken else kept) else passed

unfoldable pub select_path_round_robin : Bool → List PathView → List (ℕ × ℕ) → Selected
select_path_round_robin has_retransmission paths quotas =
    if leb (length paths) 1
    then select_initial has_retransmission paths quotas
    else least_quota has_retransmission paths none (2 ^ 64 - 1) quotas

-- Another path with a lower quota than that of the path whose packet is sent again.
unfoldable pub find_less_used : List PathView → ℕ → List (ℕ × ℕ) → Option PathView
find_less_used [] from quotas = none
find_less_used (p ∷ rest) from quotas =
    if p.path_id == 0 || p.path_id == from
    then find_less_used rest from quotas
    else if ltb (quota_of quotas p.path_id) (quota_of quotas from)
    then some p
    else find_less_used rest from quotas

-- The loop's variables; the selected path has the id and the round-trip time.
pub record Best : Type 0 where
  pub selected : Option PathView
  pub lower_rtt : ℕ
  pub selected_path_id : ℕ
  pub quotas : List (ℕ × ℕ)

abbrev pub is_some {ℓ} : {A : Type ℓ} → Option A → Bool
is_some none = false
is_some (some a) = true

abbrev pub take_path : Best → PathView → Best
take_path b p = record {
  selected = some p;
  lower_rtt = p.smoothed_rtt;
  selected_path_id = p.path_id;
  quotas = b.quotas;
}

-- A round for a path that is not passed over.
unfoldable pub compare_path : Best → PathView → Best
compare_path b p =
    let unprobed : Bool = p.smoothed_rtt == 0 in
    let set : Best = record b {
      quotas = if unprobed then with_quota b.quotas p.path_id else b.quotas;
    } in
    if not (b.lower_rtt == 0) && unprobed
    then b
    else if unprobed
        && (is_some b.selected
            && ltb (quota_of set.quotas b.selected_path_id) (quota_of set.quotas p.path_id))
    then set
    else if not unprobed
        && (not (b.lower_rtt == 0) && (is_some b.selected && leb b.lower_rtt p.smoothed_rtt))
    then set
    else take_path set p

unfoldable pub least_latency : Bool → List PathView → Best → Best
least_latency has_retransmission [] b = b
least_latency has_retransmission (p ∷ rest) b =
    least_latency has_retransmission rest
      (if is_usable has_retransmission p then compare_path b p else b)

unfoldable pub select_path_low_latency :
    Bool → Bool → PathView → List PathView → List (ℕ × ℕ) → Selected
select_path_low_latency has_retransmission has_stream_retransmission from paths quotas =
    let start : Best = record {
      selected = none;
      lower_rtt = 0;
      selected_path_id = 255;
      quotas = quotas;
    } in
    let best : Best = least_latency has_retransmission paths start in
    let least : Selected = selects best.selected best.quotas in
    let unprobed : Bool =
      has_retransmission && (has_stream_retransmission && from.smoothed_rtt == 0) in
    if leb (length paths) 1
    then select_initial has_retransmission paths quotas
    else if unprobed
    then elim (find_less_used paths from.path_id quotas) [
      | some p ↦ selects (some p) quotas
      | none ↦ least
    ]
    else least
