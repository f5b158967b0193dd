-- ===== src/Streams/Sorter/Queue.antt =====
-- What holds of every queued frame, through the operations of the map.
use mpquic_sbd.Base.{ℕ, ◌≡◌, subst, inl, inr, List, [], ◌∷◌, some, ◌==◌, All, Bool-cases, arith}
use mpquic_sbd.Wire.Stream.{StreamFrame}
use mpquic_sbd.Streams.Sorter.{lookup, delete, delete_all}

module _ (P : ℕ × StreamFrame → Type 0) where
  pub delete-All : (k : ℕ) (l : List (ℕ × StreamFrame)) → All P l → All P (delete k l)
  unfolding delete
  delete-All k [] q = tt
  delete-All k ((key, f) ∷ rest) q =
      let later = delete-All k rest q.1 in
      elim (Bool-cases (k == key)) [
        | inl e ↦ rw (delete, e) later
        | inr e ↦ rw (delete, e) (q.0, later)
      ]

  pub delete_all-All :
      (keys : List ℕ) (l : List (ℕ × StreamFrame)) → All P l → All P (delete_all keys l)
  unfolding delete_all
  delete_all-All [] l q = q
  delete_all-All (k ∷ rest) l q = delete_all-All rest (delete k l) (delete-All k l q)

  pub lookup-All :
      (k : ℕ) (f : StreamFrame) (l : List (ℕ × StreamFrame))
      → All P l
      → lookup k l ≡ some f
      → P (k, f)
  unfolding lookup
  lookup-All k f [] q e = absurd (ground arith)
  lookup-All k f ((key, g) ∷ rest) q e = elim (Bool-cases (k == key)) [
    | inl t ↦
        let same : g ≡ f = ground arith in
        let at : key ≡ k = ground arith in
        subst (λ z. P (z, f)) at (subst (λ z. P (key, z)) same q.0)
    | inr t ↦ lookup-All k f rest q.1 (ground arith)
  ]

pub All-map :
    {P Q : ℕ × StreamFrame → Type 0} (l : List (ℕ × StreamFrame))
    → ((e : ℕ × StreamFrame) → P e → Q e)
    → All P l
    → All Q l
All-map [] h q = tt
All-map (e ∷ rest) h q = (h e q.0, All-map rest h q.1)
