-- ===== src/AckHandler/History/Canonical.antt =====
-- The intervals are a canonical form: histories of the same packet numbers are equal.
use mpquic_sbd.Base.{
  ℕ, ◌-◌, ◌≤◌, ◌<◌, ◌≡◌, refl, sym, ap, ap₂, subst, ◌∙◌, Bool, true, ◌||◌, List, [], ◌∷◌, ok, arith,
  ◌==◌, ==_iff, Bool-cases, inl, inr,
}
use mpquic_sbd.AckHandler.History.{PacketInterval, History, insert_packet, received_packet}
use mpquic_sbd.AckHandler.History.Invariant.{Ordered, packet_limit, IsValid, insert_packet-Ordered}
use mpquic_sbd.AckHandler.History.Contents.{covers, contains, covers_above, covers-insert_packet}

-- Ordered intervals are determined by the numbers that they cover.
head_end-le :
    (limit : ℕ) (el el' : PacketInterval) (rest rest' : List PacketInterval)
    → Ordered limit (el ∷ rest)
    → Ordered limit (el' ∷ rest')
    → ((x : ℕ) → covers x (el ∷ rest) ≡ covers x (el' ∷ rest'))
    → el.end ≤ el'.end
head_end-le limit el el' rest rest' o o' same =
    ground (arith, same el.end, covers_above el.end (el'.start - 1) rest')

head_start-le :
    (limit : ℕ) (el el' : PacketInterval) (rest rest' : List PacketInterval)
    → Ordered limit (el ∷ rest)
    → Ordered limit (el' ∷ rest')
    → ((x : ℕ) → covers x (el ∷ rest) ≡ covers x (el' ∷ rest'))
    → el.end ≡ el'.end
    → el'.start ≤ el.start
head_start-le limit el el' rest rest' o o' same e =
    ground (arith, same (el'.start - 1), covers_above (el'.start - 1) (el'.start - 1) rest')

covers_tail :
    (limit x : ℕ) (el : PacketInterval) (rest rest' : List PacketInterval)
    → Ordered limit (el ∷ rest)
    → Ordered limit (el ∷ rest')
    → covers x (el ∷ rest) ≡ covers x (el ∷ rest')
    → covers x rest ≡ covers x rest'
covers_tail limit x el rest rest' o o' same =
    ground (arith, covers_above x (el.start - 1) rest, covers_above x (el.start - 1) rest')

abbrev Same : List PacketInterval → List PacketInterval → Type 0
Same a b = (x : ℕ) → covers x a ≡ covers x b

head-eq :
    (limit : ℕ) (el el' : PacketInterval) (rest rest' : List PacketInterval)
    → Ordered limit (el ∷ rest)
    → Ordered limit (el' ∷ rest')
    → Same (el ∷ rest) (el' ∷ rest')
    → el ≡ el'
head-eq limit el el' rest rest' o o' same =
    let back : Same (el' ∷ rest') (el ∷ rest) = λ x. sym (same x) in
    let ends : el.end ≡ el'.end = omega (
      arith,
      head_end-le limit el el' rest rest' o o' same,
      head_end-le limit el' el rest' rest o' o back,
    ) in
    let starts : el.start ≡ el'.start = omega (
      arith,
      head_start-le limit el el' rest rest' o o' same ends,
      head_start-le limit el' el rest' rest o' o back (sym ends),
    ) in
    λ i. record { start = starts i; end = ends i }

canonical :
    (limit : ℕ) (a b : List PacketInterval) → Ordered limit a → Ordered limit b → Same a b → a ≡ b
canonical limit [] [] o o' same = refl
canonical limit [] (el ∷ rest) o o' same = absurd (ground (arith, same el.end))
canonical limit (el ∷ rest) [] o o' same = absurd (ground (arith, same el.end))
canonical limit (el ∷ rest) (el' ∷ rest') o o' same = ap₂ ◌∷◌ heads (
    canonical (el.start - 1) rest rest' o.3 o''.3
      (λ x. covers_tail limit x el rest rest' o o'' (same' x)))
  where
    heads : el ≡ el'
    heads = head-eq limit el el' rest rest' o o' same

    o'' : Ordered limit (el ∷ rest')
    o'' = subst (λ e. Ordered limit (e ∷ rest')) (sym heads) o'

    same' : Same (el ∷ rest) (el ∷ rest')
    same' = subst (λ e. Same (el ∷ rest) (e ∷ rest')) (sym heads) same

swap_or : (a b c : Bool) → (a || (b || c)) ≡ (b || (a || c))
swap_or a b c = ground arith

insert_packet_comm :
    (p q : ℕ) (l : List PacketInterval)
    → 0 < p
    → p < packet_limit
    → 0 < q
    → q < packet_limit
    → Ordered packet_limit l
    → insert_packet p (insert_packet q l) ≡ insert_packet q (insert_packet p l)
insert_packet_comm p q l hp bp hq bq o =
    canonical packet_limit (insert_packet p (insert_packet q l))
      (insert_packet q (insert_packet p l))
      (inserted p (insert_packet q l) hp bp (inserted q l hq bq o))
      (inserted q (insert_packet p l) hq bq (inserted p l hp bp o))
      λ x.
        covered x p (insert_packet q l) hp bp (inserted q l hq bq o)
        ∙ ap (◌||◌ (x == p)) (covered x q l hq bq o)
        ∙ swap_or (x == p) (x == q) (covers x l)
        ∙ sym (ap (◌||◌ (x == q)) (covered x p l hp bp o))
        ∙ sym (covered x q (insert_packet p l) hq bq (inserted p l hp bp o))
  where
    inserted :
        (p : ℕ) (l : List PacketInterval)
        → 0 < p
        → p < packet_limit
        → Ordered packet_limit l
        → Ordered packet_limit (insert_packet p l)
    inserted p l h b o = insert_packet-Ordered packet_limit p l (omega arith) h b o

    covered :
        (x p : ℕ) (l : List PacketInterval)
        → 0 < p
        → p < packet_limit
        → Ordered packet_limit l
        → covers x (insert_packet p l) ≡ ((x == p) || covers x l)
    covered x p l h b o = covers-insert_packet x packet_limit p l (omega arith) h b o

-- If two positive packet numbers below 2 ^ 63 can be registered in a valid history in either order,
-- both orders give the same history.
pub received_packet_comm :
    (h hp hpq hq hqp : History) (p q : ℕ)
    → 0 < p
    → p < packet_limit
    → 0 < q
    → q < packet_limit
    → IsValid h
    → received_packet h p ≡ ok hp
    → received_packet hp q ≡ ok hpq
    → received_packet h q ≡ ok hq
    → received_packet hq p ≡ ok hqp
    → hpq ≡ hqp
unfolding received_packet
received_packet_comm h hp hpq hq hqp p q zp bp zq bq v e₁ e₂ e₃ e₄ =
    ground (arith, insert_packet_comm q p h.ranges)

absorbed :
    (x p : ℕ) (l : List PacketInterval) → covers p l ≡ true → ((x == p) || covers x l) ≡ covers x l
absorbed x p l c = elim (Bool-cases (x == p)) [
  | inl hit ↦ rw (hit, (==_iff x p).0 hit) (sym c)
  | inr miss ↦ rw miss
]

-- Where a valid history accepts a positive packet number below 2 ^ 63 that it has recorded already, it
-- is left as it was.
pub received_packet_duplicate :
    (h h' : History) (p : ℕ)
    → 0 < p
    → p < packet_limit
    → IsValid h
    → contains p h ≡ true
    → received_packet h p ≡ ok h'
    → h' ≡ h
unfolding received_packet contains
received_packet_duplicate h h' p z b v c e = ground (arith, again)
  where
    again : insert_packet p h.ranges ≡ h.ranges
    again =
        canonical packet_limit (insert_packet p h.ranges) h.ranges
          (insert_packet-Ordered packet_limit p h.ranges (omega arith) z b v) v
          λ x.
            covers-insert_packet x packet_limit p h.ranges (omega arith) z b v
            ∙ absorbed x p h.ranges c
