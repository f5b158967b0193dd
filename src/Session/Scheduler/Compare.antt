-- ===== src/Session/Scheduler/Compare.antt =====
-- quic-go/scheduler.go: how a round of selectPathLowLatency compares two paths.
use mpquic_sbd.Base.{
  ℕ, ◌≤◌, ◌≡◌, ◌≢◌, ◌⊎◌, refl, ap, ◌∙◌, inl, inr, subst, Bool, true, false, not, ◌&&◌, List, [],
  ◌∷◌, none, some, ltb, leb, ◌==◌, if◌then◌else◌, arith, Bool-cases,
}
use mpquic_sbd.Session.Scheduler.{
  PathView, Best, quota_of, has_quota, with_quota, take_path, compare_path,
}

has_none : (quotas : List (ℕ × ℕ)) (id : ℕ) → has_quota quotas id ≡ false → quota_of quotas id ≡ 0
unfolding has_quota quota_of
has_none [] id e = refl
has_none ((key, n) ∷ rest) id e = ground (arith, has_none rest id)

with_quota-quota_of :
    (quotas : List (ℕ × ℕ)) (id other : ℕ)
    → quota_of (with_quota quotas id) other ≡ quota_of quotas other
unfolding with_quota quota_of
with_quota-quota_of quotas id other = elim (Bool-cases (has_quota quotas id)) [
  | inl e ↦ ground arith
  | inr e ↦ ground (arith, has_none quotas id e)
]

-- How a path that is chosen compares with another one: it was probed if the other one was, and then has
-- no longer a round-trip time; where none was, it has no higher a quota.
abbrev pub IsNoWorse : (ℕ → ℕ) → PathView → PathView → Type 0
IsNoWorse quota p q =
    ((p.smoothed_rtt ≢ 0) × ((q.smoothed_rtt ≡ 0) ⊎ (p.smoothed_rtt ≤ q.smoothed_rtt)))
    ⊎ ((p.smoothed_rtt ≡ 0) × ((q.smoothed_rtt ≡ 0) × (quota p.path_id ≤ quota q.path_id)))

pub IsNoWorse-trans :
    (quota : ℕ → ℕ) (p s q : PathView)
    → IsNoWorse quota p s
    → IsNoWorse quota s q
    → IsNoWorse quota p q
IsNoWorse-trans quota p s q (inl (a, inl z)) (inl (c, d)) = absurd (c z)
IsNoWorse-trans quota p s q (inl (a, inr h)) (inl (c, inl z)) = inl (a, inl z)
IsNoWorse-trans quota p s q (inl (a, inr h)) (inl (c, inr g)) = inl (a, inr (omega (arith, h, g)))
IsNoWorse-trans quota p s q (inl (a, b)) (inr (c, (z, g))) = inl (a, inl z)
IsNoWorse-trans quota p s q (inr (a, (z, h))) (inl (c, d)) = absurd (c z)
IsNoWorse-trans quota p s q (inr (a, (z, h))) (inr (c, (y, g))) = inr (a, (y, omega (arith, h, g)))

pub IsNoWorse-refl : (quota : ℕ → ℕ) (p : PathView) → IsNoWorse quota p p
IsNoWorse-refl quota p = elim (Bool-cases (p.smoothed_rtt == 0)) [
  | inl e ↦ inr (ground arith, (ground arith, omega arith))
  | inr e ↦ inl (ground arith, inr (omega arith))
]

-- The loop's variables go together.
pub record IsConsistent (quota : ℕ → ℕ) (b : Best) : Type 0 where
  pub quotas : (id : ℕ) → quota_of b.quotas id ≡ quota id
  pub nothing : b.selected ≡ none → b.lower_rtt ≡ 0
  pub rtt : (s : PathView) → b.selected ≡ some s → b.lower_rtt ≡ s.smoothed_rtt
  pub path_id : (s : PathView) → b.selected ≡ some s → b.selected_path_id ≡ s.path_id

-- A round keeps a path that is no worse, or takes the new one where the path is no better.
pub data Compared (quota : ℕ → ℕ) (b : Best) (p : PathView) : Best → Type 0 where
  keeps :
      (quotas : List (ℕ × ℕ)) (s : PathView)
      → b.selected ≡ some s
      → ((id : ℕ) → quota_of quotas id ≡ quota id)
      → IsNoWorse quota s p
      → Compared quota b p (record b { quotas = quotas })
  takes :
      (quotas : List (ℕ × ℕ))
      → ((id : ℕ) → quota_of quotas id ≡ quota id)
      → ((s : PathView) → b.selected ≡ some s → IsNoWorse quota p s)
      → Compared quota b p (take_path (record b { quotas = quotas }) p)

set_quotas :
    (quota : ℕ → ℕ) (quotas : List (ℕ × ℕ)) (unprobed : Bool) (id : ℕ)
    → ((other : ℕ) → quota_of quotas other ≡ quota other)
    → (other : ℕ) → quota_of (if unprobed then with_quota quotas id else quotas) other ≡ quota other
set_quotas quota quotas true id same other = with_quota-quota_of quotas id other ∙ same other
set_quotas quota quotas false id same other = same other

pub compare_first :
    (quota : ℕ → ℕ) (b : Best) (p : PathView)
    → IsConsistent quota b
    → b.selected ≡ none
    → Compared quota b p (compare_path b p)
unfolding compare_path
compare_first quota b p c e =
    let set = if p.smoothed_rtt == 0 then with_quota b.quotas p.path_id else b.quotas in
    let zero_rtt = c.nothing e in
    subst (Compared quota b p) (ground arith) (
      takes set (set_quotas quota b.quotas (p.smoothed_rtt == 0) p.path_id c.quotas)
        (λ s f. absurd (ground arith)))

-- The quotas of two paths, in the map and after a path has been set.
module _ (quota : ℕ → ℕ) (b : Best) (p s : PathView) (c : IsConsistent quota b)
    (e : b.selected ≡ some s) where
  abbrev set : List (ℕ × ℕ)
  set = if p.smoothed_rtt == 0 then with_quota b.quotas p.path_id else b.quotas

  set_same : (id : ℕ) → quota_of set id ≡ quota id
  set_same = set_quotas quota b.quotas (p.smoothed_rtt == 0) p.path_id c.quotas

  only_selected : (r : PathView) → b.selected ≡ some r → s ≡ r
  only_selected r f = ground arith

  pub compare_later : Compared quota b p (compare_path b p)
  unfolding compare_path
  compare_later =
      let rtt : b.lower_rtt ≡ s.smoothed_rtt = c.rtt s e in
      let id : b.selected_path_id ≡ s.path_id = c.path_id s e in
      let of_s : quota_of set b.selected_path_id ≡ quota s.path_id =
        set_same b.selected_path_id ∙ ap quota id in
      let of_p : quota_of set p.path_id ≡ quota p.path_id = set_same p.path_id in
      elim (Bool-cases (p.smoothed_rtt == 0)) [
        | inl unprobed ↦ elim (Bool-cases (b.lower_rtt == 0)) [
          | inr probed ↦
              subst (Compared quota b p) (ground arith)
                (keeps b.quotas s e c.quotas (inl (ground arith, inl (ground arith))))
          | inl zero_rtt ↦
              elim (Bool-cases (ltb (quota_of set b.selected_path_id) (quota_of set p.path_id))) [
                | inl less ↦
                    subst (Compared quota b p) (ground arith)
                      (keeps set s e set_same (inr (ground arith, (ground arith, ground arith))))
                | inr less ↦ subst (Compared quota b p) (ground arith) (
                    takes set set_same (λ r f.
                      subst (IsNoWorse quota p) (only_selected r f)
                        (inr (ground arith, (ground arith, ground arith)))))
              ]
        ]
        | inr probed ↦
            elim (Bool-cases (not (b.lower_rtt == 0) && leb b.lower_rtt p.smoothed_rtt)) [
              | inl less ↦
                  subst (Compared quota b p) (ground arith)
                    (keeps set s e set_same (inl (ground arith, inr (ground arith))))
              | inr less ↦ subst (Compared quota b p) (ground arith) (
                  takes set set_same (λ r f. subst (IsNoWorse quota p) (only_selected r f) (
                    inl (
                      ground arith,
                      elim (Bool-cases (b.lower_rtt == 0)) [
                        | inl zero_rtt ↦ inl (ground arith)
                        | inr later ↦ inr (ground arith)
                      ],
                    ))))
            ]
      ]
