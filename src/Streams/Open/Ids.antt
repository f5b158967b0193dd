-- ===== src/Streams/Open/Ids.antt =====
-- The ids of the open streams of quic-go/streams_map.go, as the keys of the map and as a list.
use mpquic_sbd.Base.{
  ℕ, ◌+◌, ◌%◌, ◌≡◌, ◌≢◌, refl, sym, ap, subst, inl, inr, true, false, List, [], ◌∷◌, ◌++◌, none,
  some, ◌==◌, All, if◌then◌else◌, Bool-cases, arith,
}
use mpquic_sbd.Streams.Open.{find_stream, delete_stream, remove_open}

abbrev pub keys {ℓ} : {S : Type ℓ} → List (ℕ × S) → List ℕ
keys [] = []
keys ((k, s) ∷ rest) = k ∷ keys rest

-- No id is in the list twice.
abbrev pub Unique : List ℕ → Type 0
Unique [] = Unit {0}
Unique (x ∷ rest) = All (λ k. k ≢ x) rest × Unique rest

abbrev pub having_parity : ℕ → List ℕ → ℕ
having_parity r [] = 0
having_parity r (x ∷ rest) = (if x % 2 == r then 1 else 0) + having_parity r rest

pub keys-append {ℓ} :
    {S : Type ℓ} (l : List (ℕ × S)) (k : ℕ) (s : S) → keys (l ++ ((k, s) ∷ [])) ≡ keys l ++ (k ∷ [])
keys-append [] k s = refl
keys-append ((x, y) ∷ rest) k s = ap (◌∷◌ x) (keys-append rest k s)

pub having_parity-append :
    (r : ℕ) (l : List ℕ) (x : ℕ)
    → having_parity r (l ++ (x ∷ [])) ≡ having_parity r l + (if x % 2 == r then 1 else 0)
having_parity-append r [] x = omega arith
having_parity-append r (y ∷ rest) x = omega (arith, having_parity-append r rest x)

pub All-append : (P : ℕ → Type 0) (l : List ℕ) (x : ℕ) → All P l → P x → All P (l ++ (x ∷ []))
All-append P [] x a p = (p, tt)
All-append P (y ∷ rest) x a p = (a.0, All-append _ rest x a.1 p)

pub All-imp : (P Q : ℕ → Type 0) (l : List ℕ) → ((k : ℕ) → P k → Q k) → All P l → All Q l
All-imp P Q [] h a = tt
All-imp P Q (y ∷ rest) h a = (h y a.0, All-imp P Q rest h a.1)

pub Unique-append : (l : List ℕ) (x : ℕ) → Unique l → All (λ k. k ≢ x) l → Unique (l ++ (x ∷ []))
Unique-append [] x u a = (tt, tt)
Unique-append (y ∷ rest) x u a =
    (All-append _ rest x u.0 (λ e. a.0 (sym e)), Unique-append rest x u.1 a.1)

pub remove_open-All : (P : ℕ → Type 0) (id : ℕ) (l : List ℕ) → All P l → All P (remove_open id l)
unfolding remove_open
remove_open-All P id [] a = tt
remove_open-All P id (x ∷ rest) a = elim (Bool-cases (x == id)) [
  | inl e ↦ rw (remove_open, e) a.1
  | inr e ↦ rw (remove_open, e) (a.0, remove_open-All P id rest a.1)
]

pub remove_open-Unique : (id : ℕ) (l : List ℕ) → Unique l → Unique (remove_open id l)
unfolding remove_open
remove_open-Unique id [] u = tt
remove_open-Unique id (x ∷ rest) u = elim (Bool-cases (x == id)) [
  | inl e ↦ rw (remove_open, e) u.1
  | inr e ↦ rw (remove_open, e) (remove_open-All _ id rest u.0, remove_open-Unique id rest u.1)
]

-- A stream that is not in the map is not found, and deleting it changes nothing.
pub find_stream-none :
    {S : Type 0} (id : ℕ) (l : List (ℕ × S)) → All (λ k. k ≢ id) (keys l) → find_stream id l ≡ none
unfolding find_stream
find_stream-none id [] a = refl
find_stream-none id ((k, s) ∷ rest) a = elim (Bool-cases (id == k)) [
  | inl e ↦ absurd (a.0 (ground arith))
  | inr e ↦ rw (find_stream, e) (find_stream-none id rest a.1)
]

delete_stream-none :
    {S : Type 0} (id : ℕ) (l : List (ℕ × S)) → All (λ k. k ≢ id) (keys l) → delete_stream id l ≡ l
unfolding delete_stream
delete_stream-none id [] a = refl
delete_stream-none id ((k, s) ∷ rest) a = elim (Bool-cases (id == k)) [
  | inl e ↦ absurd (a.0 (ground arith))
  | inr e ↦ rw (delete_stream, e) (ap (◌∷◌ (k, s)) (delete_stream-none id rest a.1))
]

pub keys-delete_stream :
    {S : Type 0} (id : ℕ) (l : List (ℕ × S))
    → Unique (keys l)
    → keys (delete_stream id l) ≡ remove_open id (keys l)
unfolding delete_stream remove_open
keys-delete_stream id [] u = refl
keys-delete_stream id ((k, s) ∷ rest) u = elim (Bool-cases (id == k)) [
  | inl e ↦
      let same : k ≡ id = ground arith in
      let twin : (k == id) ≡ true = ground arith in
      rw (delete_stream, remove_open, e, twin)
        (ap keys (delete_stream-none id rest (subst (λ z. All (λ k. k ≢ z) (keys rest)) same u.0)))
  | inr e ↦
      let twin : (k == id) ≡ false = ground arith in
      rw (delete_stream, remove_open, e, twin) (ap (◌∷◌ k) (keys-delete_stream id rest u.1))
]

pub having_parity-remove_open :
    {S : Type 0} (r id : ℕ) (l : List (ℕ × S)) (s : S)
    → find_stream id l ≡ some s
    → having_parity r (keys l)
      ≡ having_parity r (remove_open id (keys l)) + (if id % 2 == r then 1 else 0)
unfolding find_stream remove_open
having_parity-remove_open r id [] s e = absurd (ground arith)
having_parity-remove_open r id ((k, s) ∷ rest) s' e = elim (Bool-cases (id == k)) [
  | inl t ↦
      let same : k ≡ id = ground arith in
      let twin : (k == id) ≡ true = ground arith in rw (remove_open, twin, same) (omega arith)
  | inr t ↦
      let twin : (k == id) ≡ false = ground arith in
      let rec = having_parity-remove_open r id rest s' (ground arith) in
      rw (remove_open, twin) (omega (arith, rec))
]
