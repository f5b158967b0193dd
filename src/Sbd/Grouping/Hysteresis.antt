-- ===== src/Sbd/Grouping/Hysteresis.antt =====
-- The hysteresis of `splitCongestion`, whose marks `setup` clears before every grouping.
use mpquic_sbd.Base.{
  ℕ, ◌≡◌, refl, ap₂, ◌∙◌, Bool, true, false, ◌||◌, List, [], ◌∷◌, if◌then◌else◌, arith,
}
use mpquic_sbd.Sbd.Grouping
use mpquic_sbd.Sbd.Grouping.{Floats}

abbrev pub keep : (ℕ → Bool) → List ℕ → List ℕ
keep test [] = []
keep test (k ∷ rest) = if test k then k ∷ keep test rest else keep test rest

-- The tests of `splitCongestion` that do not read the mark.
abbrev pub steady : (fl : Floats) → Grouping.Stats fl → Bool
steady fl s =
    fl.lt s.skewness (Grouping.congestion_threshold fl) || fl.lt (Grouping.loss_threshold fl) s.loss

module _ (fl : Floats) where
  -- A path that is marked passes the other tests too.
  abbrev Marked : Grouping.Stats fl → Type 0
  Marked s = s.pb ≡ true → steady fl s ≡ true

  is_sharing-steady : (s : Grouping.Stats fl) → Marked s → Grouping.is_sharing fl s ≡ steady fl s
  unfolding Grouping.is_sharing
  is_sharing-steady s m = ground arith

  set_pb-steady :
      (store : Grouping.Store fl) (k j : ℕ) (b : Bool)
      → steady fl (Grouping.set_pb fl store k b j) ≡ steady fl (store j)
  unfolding Grouping.set_pb
  set_pb-steady store k j b = ground arith

  set_pb-Marked :
      (store : Grouping.Store fl) (k j : ℕ)
      → ((i : ℕ) → Marked (store i))
      → Marked (Grouping.set_pb fl store k (steady fl (store k)) j)
  unfolding Grouping.set_pb
  set_pb-Marked store k j m = ground (arith, m j)

  put_flow-congested :
      (sharing : Bool) (k : ℕ) (s : Grouping.Split fl)
      → (Grouping.put_flow fl sharing k s).congested
        ≡ (if sharing then k ∷ s.congested else s.congested)
  put_flow-congested true k s = refl
  put_flow-congested false k s = refl

  congested-keep :
      (test : ℕ → Bool) (store : Grouping.Store fl) (ids : List ℕ)
      → ((j : ℕ) → Marked (store j))
      → ((j : ℕ) → steady fl (store j) ≡ test j)
      → (Grouping.split_congestion fl store ids).congested ≡ keep test ids
  unfolding Grouping.split_congestion
  congested-keep test store [] m e = refl
  congested-keep test store (k ∷ rest) m e =
      let after = Grouping.set_pb fl store k (steady fl (store k)) in
      let later =
        congested-keep test after rest (λ j. set_pb-Marked store k j m)
          (λ j. set_pb-steady store k j (steady fl (store k)) ∙ e j) in
      rw (is_sharing-steady (store k) (m k)) (
        put_flow-congested (steady fl (store k)) k (Grouping.split_congestion fl after rest)
        ∙ ap₂ (λ b l. if b then k ∷ l else l) (e k) later)

-- SplitCongestion after setup takes as congested exactly the paths whose skewness is below the
-- congestion threshold or whose loss is above the loss threshold, in their order: the hysteresis
-- threshold changes nothing.
pub split_congestion-setup :
    (fl : Floats) (measured : Grouping.Store fl) (ids : List ℕ)
    → (Grouping.split_congestion fl (Grouping.setup fl measured) ids).congested
      ≡ keep (λ k. steady fl (measured k)) ids
split_congestion-setup fl measured ids =
    congested-keep fl (λ k. steady fl (measured k)) (Grouping.setup fl measured) ids
      (λ j e. ground arith) (λ j. refl)
