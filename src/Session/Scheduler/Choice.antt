-- ===== src/Session/Scheduler/Choice.antt =====
-- quic-go/scheduler.go: which path selectPathLowLatency chooses.
use mathlib.Core.List.{Memᴰ}
use mpquic_sbd.Base.{
  ℕ, ◌<◌, ◌≡◌, ◌⊎◌, refl, inl, inr, subst, Bool, true, false, ◌&&◌, List, [], ◌∷◌, none, some, leb,
  ◌==◌, length, arith, All, Bool-cases, Option-cases,
}
use mpquic_sbd.Session.Scheduler.{
  PathView, Best, Selected, selects, panics, quota_of, is_usable, compare_path, least_latency,
  select_path_low_latency,
}
use mpquic_sbd.Session.Scheduler.Compare.{
  IsNoWorse, IsNoWorse-trans, IsNoWorse-refl, IsConsistent, Compared, keeps, takes, compare_first,
  compare_later,
}

-- What the loop makes of the path selected before it and of the paths that it goes over.
record IsLeast (quota : ℕ → ℕ) (has_retransmission : Bool) (b : Best) (paths : List PathView)
    (r : Best) : Type 0 where
  quotas : (id : ℕ) → quota_of r.quotas id ≡ quota id
  none_usable :
      r.selected ≡ none
      → (b.selected ≡ none) × All (λ (q : PathView). is_usable has_retransmission q ≡ false) paths
  chosen :
      (p : PathView)
      → r.selected ≡ some p
      → (b.selected ≡ some p) ⊎ (Memᴰ p paths × (is_usable has_retransmission p ≡ true))
  least :
      (p : PathView)
      → r.selected ≡ some p
      → All (λ (q : PathView). is_usable has_retransmission q ≡ true → IsNoWorse quota p q) paths
  no_worse : (p s : PathView) → r.selected ≡ some p → b.selected ≡ some s → IsNoWorse quota p s

module _ (quota : ℕ → ℕ) (has_retransmission : Bool) where
  Compared-IsConsistent :
      (b b' : Best) (p : PathView)
      → IsConsistent quota b
      → Compared quota b p b'
      → IsConsistent quota b'
  Compared-IsConsistent b b' p c (keeps quotas s e same n) = record {
    quotas = same;
    nothing = c.nothing;
    rtt = c.rtt;
    path_id = c.path_id;
  }
  Compared-IsConsistent b b' p c (takes quotas same n) = record {
    quotas = same;
    nothing = λ e. absurd (ground arith);
    rtt = λ s e. ground arith;
    path_id = λ s e. ground arith;
  }

  passed_over :
      (b r : Best) (p : PathView) (rest : List PathView)
      → is_usable has_retransmission p ≡ false
      → IsLeast quota has_retransmission b rest r
      → IsLeast quota has_retransmission b (p ∷ rest) r
  passed_over b r p rest u l = record {
    quotas = l.quotas;
    none_usable = λ e. ((l.none_usable e).0, (u, (l.none_usable e).1));
    chosen = λ q e. elim (l.chosen q e) [ inl f ↦ inl f | inr (m, v) ↦ inr (Memᴰ.tail m, v) ];
    least = λ q e. (λ v. absurd (ground arith), l.least q e);
    no_worse = l.no_worse;
  }

  compared :
      (b b' r : Best) (p : PathView) (rest : List PathView)
      → is_usable has_retransmission p ≡ true
      → Compared quota b p b'
      → IsLeast quota has_retransmission b' rest r
      → IsLeast quota has_retransmission b (p ∷ rest) r
  compared b b' r p rest u (keeps quotas s e same n) l = record {
    quotas = l.quotas;
    none_usable = λ f. absurd (ground (arith, (l.none_usable f).0));
    chosen = λ q f. elim (l.chosen q f) [ inl g ↦ inl g | inr (m, v) ↦ inr (Memᴰ.tail m, v) ];
    least = λ q f. (λ v. IsNoWorse-trans quota q s p (l.no_worse q s f e) n, l.least q f);
    no_worse = l.no_worse;
  }
  compared b b' r p rest u (takes quotas same n) l = record {
    quotas = l.quotas;
    none_usable = λ f. absurd (ground (arith, (l.none_usable f).0));
    chosen = λ q f. elim (l.chosen q f) [
      | inl g ↦ inr (Memᴰ.head (ground arith), ground arith)
      | inr (m, v) ↦ inr (Memᴰ.tail m, v)
    ];
    least = λ q f. (λ v. l.no_worse q p f refl, l.least q f);
    no_worse = λ q s f g. IsNoWorse-trans quota q p s (l.no_worse q p f refl) (n s g);
  }

  compare_path-Compared :
      (b : Best) (p : PathView) → IsConsistent quota b → Compared quota b p (compare_path b p)
  compare_path-Compared b p c = elim (Option-cases b.selected) [
    | inl e ↦ compare_first quota b p c e
    | inr (s, e) ↦ compare_later quota b p s c e
  ]

  least_latency-IsLeast :
      (paths : List PathView) (b : Best)
      → IsConsistent quota b
      → IsLeast quota has_retransmission b paths (least_latency has_retransmission paths b)
  unfolding least_latency
  least_latency-IsLeast [] b c = record {
    quotas = c.quotas;
    none_usable = λ e. (e, tt);
    chosen = λ p e. inl e;
    least = λ p e. tt;
    no_worse = λ p s e f.
        let same : p ≡ s = ground arith in subst (IsNoWorse quota p) same (IsNoWorse-refl quota p);
  }
  least_latency-IsLeast (p ∷ rest) b c = elim (Bool-cases (is_usable has_retransmission p)) [
    | inr u ↦ rw (least_latency, u) (passed_over b _ p rest u (least_latency-IsLeast rest b c))
    | inl u ↦
        let step = compare_path-Compared b p c in
        rw (least_latency, u)
          (compared b (compare_path b p) _ p rest u step (
            least_latency-IsLeast rest (compare_path b p)
              (Compared-IsConsistent b (compare_path b p) p c step)))
  ]

-- The path is one of those that can be used and no worse than any other of them; none is selected only
-- where none can be used. The quotas are as they were.
abbrev pub IsBestChoice : Bool → List PathView → List (ℕ × ℕ) → Selected → Type 0
IsBestChoice has_retransmission paths quotas panics = ⊥
IsBestChoice has_retransmission paths quotas (selects none after) =
    ((id : ℕ) → quota_of after id ≡ quota_of quotas id)
    × All (λ (q : PathView). is_usable has_retransmission q ≡ false) paths
IsBestChoice has_retransmission paths quotas (selects (some p) after) =
    ((id : ℕ) → quota_of after id ≡ quota_of quotas id)
    × ((Memᴰ p paths × (is_usable has_retransmission p ≡ true))
        × All
            (λ (q : PathView).
              is_usable has_retransmission q ≡ true → IsNoWorse (quota_of quotas) p q)
            paths)

least-IsBestChoice :
    (has_retransmission : Bool) (paths : List PathView) (quotas : List (ℕ × ℕ)) (b r : Best)
    → b.selected ≡ none
    → IsLeast (quota_of quotas) has_retransmission b paths r
    → IsBestChoice has_retransmission paths quotas (selects r.selected r.quotas)
least-IsBestChoice has_retransmission paths quotas b r e l = elim (Option-cases r.selected) [
  | inl f ↦ rw f (l.quotas, (l.none_usable f).1)
  | inr (p, f) ↦ rw f (
    l.quotas,
    (elim (l.chosen p f) [ inl g ↦ absurd (ground arith) | inr found ↦ found ], l.least p f),
  )
]

-- With more than one path, and where no stream data are sent again for a path that has no round-trip time
-- yet, selectPathLowLatency selects a path that is not failed, is not the initial one and may send, if
-- there is one: a path with the least round-trip time of those that have one, and else a path with
-- the least quota. The quotas stay as they are.
pub select_path_low_latency-IsBestChoice :
    (has_retransmission has_stream_retransmission : Bool) (from : PathView) (paths : List PathView)
    (quotas : List (ℕ × ℕ))
    → 1 < length paths
    → (has_retransmission && (has_stream_retransmission && from.smoothed_rtt == 0)) ≡ false
    → IsBestChoice has_retransmission paths quotas
        (select_path_low_latency has_retransmission has_stream_retransmission from paths quotas)
unfolding select_path_low_latency
select_path_low_latency-IsBestChoice has_retransmission has_stream_retransmission from paths quotas
      h e =
    let start : Best = record {
      selected = none;
      lower_rtt = 0;
      selected_path_id = 255;
      quotas = quotas;
    } in
    let many : leb (length paths) 1 ≡ false = ground arith in
    rw (select_path_low_latency, many, e)
      (least-IsBestChoice has_retransmission paths quotas start
        (least_latency has_retransmission paths start) refl
        (least_latency-IsLeast (quota_of quotas) has_retransmission paths start record {
          quotas = λ id. refl;
          nothing = λ f. refl;
          rtt = λ s f. absurd (ground arith);
          path_id = λ s f. absurd (ground arith);
        }))
