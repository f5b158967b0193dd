-- ===== src/AckHandler/Sent/Removal.antt =====
-- Taking packets out of the history: what stays, and how many bytes are in flight.
use mpquic_sbd.Base.{
  ℕ, ◌+◌, ◌≤◌, ◌<◌, ◌≡◌, refl, sym, ap, subst, Bool, inl, inr, ◌⊎◌, List, [], ◌∷◌, ◌==◌, length,
  All, Bool-cases, arith,
}
use mathlib.Core.List.{Perm}
use mathlib.Core.List.Perm
use mpquic_sbd.AckHandler.Packet.{Packet}
use mpquic_sbd.AckHandler.Sent.{remove}
use mpquic_sbd.AckHandler.Sent.Acked.{Increasing, having}

abbrev pub total : List Packet → ℕ
total [] = 0
total (p ∷ rest) = p.length + total rest

-- The first list is the second one with some packets left out.
abbrev pub Sub : List Packet → List Packet → Type 0
Sub [] ys = Unit {0}
Sub (x ∷ xs) [] = ⊥
Sub (x ∷ xs) (y ∷ ys) = ((x ≡ y) × Sub xs ys) ⊎ Sub (x ∷ xs) ys

pub Sub-weaken : (y : Packet) (xs ys : List Packet) → Sub xs ys → Sub xs (y ∷ ys)
Sub-weaken y [] ys s = tt
Sub-weaken y (x ∷ xs) ys s = inr s

pub Sub-refl : (xs : List Packet) → Sub xs xs
Sub-refl [] = tt
Sub-refl (x ∷ xs) = inl (refl, Sub-refl xs)

pub Sub-having : (test : ℕ → Bool) (l : List Packet) → Sub (having test l) l
Sub-having test [] = tt
Sub-having test (p ∷ rest) = elim (Bool-cases (test p.packet_number)) [
  | inl e ↦ rw e (inl (refl, Sub-having test rest))
  | inr e ↦ rw e (Sub-weaken p _ rest (Sub-having test rest))
]

Sub-above :
    (lo : ℕ) (x : Packet) (xs l : List Packet)
    → Increasing lo l
    → Sub (x ∷ xs) l
    → lo ≤ x.packet_number
Sub-above lo x xs [] i s = absurd s
Sub-above lo x xs (y ∷ ys) i (inl (e, s)) = ground (arith, e, i.0)
Sub-above lo x xs (y ∷ ys) i (inr s) =
    omega (arith, Sub-above (y.packet_number + 1) x xs ys i.1 s, i.0)

pub Increasing-mono : (m n : ℕ) (l : List Packet) → m ≤ n → Increasing n l → Increasing m l
Increasing-mono m n [] h i = tt
Increasing-mono m n (p ∷ rest) h i = (omega (arith, i.0, h), i.1)

-- What removing the first packet of a part of the history leaves.
pub record Removed (lo : ℕ) (x : Packet) (xs l : List Packet) : Type 0 where
  pub increasing : Increasing lo (remove x.packet_number l)
  pub part : Sub xs (remove x.packet_number l)
  pub sum : total (remove x.packet_number l) + x.length ≡ total l
  pub perm : Perm (x ∷ remove x.packet_number l) l
  pub count : length (remove x.packet_number l) + 1 ≡ length l

pub All-remove : (P : Packet → Type 0) (n : ℕ) (l : List Packet) → All P l → All P (remove n l)
unfolding remove
All-remove P n [] a = tt
All-remove P n (y ∷ ys) a = elim (Bool-cases (y.packet_number == n)) [
  | inl e ↦ rw (remove, e) a.1
  | inr e ↦ rw (remove, e) (a.0, All-remove P n ys a.1)
]

remove_first : (x : Packet) (ys : List Packet) → remove x.packet_number (x ∷ ys) ≡ ys
unfolding remove
remove_first x ys = ground arith

remove_later :
    (n : ℕ) (y : Packet) (ys : List Packet)
    → y.packet_number < n
    → remove n (y ∷ ys) ≡ y ∷ remove n ys
unfolding remove
remove_later n y ys h = ground arith

pub remove-Removed :
    (lo : ℕ) (x : Packet) (xs l : List Packet)
    → Increasing lo l
    → Sub (x ∷ xs) l
    → Removed lo x xs l
remove-Removed lo x xs [] i s = absurd s
remove-Removed lo x xs (y ∷ ys) i (inl (e, s)) =
    subst (λ (l : List Packet). Removed lo x xs l) (ap (λ (z : Packet). z ∷ ys) e)
      (at_front (subst (λ (z : Packet). lo ≤ z.packet_number) (sym e) i.0)
        (subst (λ (z : Packet). Increasing (z.packet_number + 1) ys) (sym e) i.1))
  where
    at_front : lo ≤ x.packet_number → Increasing (x.packet_number + 1) ys → Removed lo x xs (x ∷ ys)
    at_front k j =
        let first = remove_first x ys in
        record {
          increasing = rw first (Increasing-mono lo (x.packet_number + 1) ys (omega (arith, k)) j);
          part = rw first s;
          sum = rw first (omega arith);
          perm = rw first (Perm.refl (x ∷ ys));
          count = rw first (omega arith);
        }
remove-Removed lo x xs (y ∷ ys) i (inr s) =
    let above = Sub-above (y.packet_number + 1) x xs ys i.1 s in
    let later = remove_later x.packet_number y ys (omega (arith, above)) in
    let v = remove-Removed (y.packet_number + 1) x xs ys i.1 s in
    record {
      increasing = rw later (i.0, v.increasing);
      part = rw later (Sub-weaken y xs _ v.part);
      sum = rw later (omega (arith, v.sum));
      perm = rw later (Perm.trans (Perm.swap y x _) (Perm.cons y v.perm));
      count = rw later (omega (arith, v.count));
    }
