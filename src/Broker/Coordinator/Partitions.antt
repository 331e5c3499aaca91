-- ===== src/Broker/Coordinator/Partitions.antt =====
-- TopicPartition of broker/transaction_coordinator.hpp, and the sorted vectors of them.
pub mod Order
use nexus_mq.Base.{
  ℕ, ◌≡◌, ◌≢◌, ◌⊎◌, inl, inr, ap, All, Bool-cases, refl, List, [], ◌∷◌, Bool, true, false, ◌&&◌,
  Option, none, some, ltb, ◌==◌, ==_self, if◌then◌else◌, arith,
}
use nexus_mq.Wire.Bytes.{Bytes}

pub record TopicPartition : Type 0 where
  pub topic : Bytes
  pub partition : ℕ

-- The order of `std::string`: by the first byte that differs, a prefix first.
unfoldable pub less_bytes : Bytes → Bytes → Bool
less_bytes [] [] = false
less_bytes [] (y ∷ ys) = true
less_bytes (x ∷ xs) [] = false
less_bytes (x ∷ xs) (y ∷ ys) = let rest = less_bytes xs ys in if x == y then rest else ltb x y

unfoldable pub same_bytes : Bytes → Bytes → Bool
same_bytes [] [] = true
same_bytes [] (y ∷ ys) = false
same_bytes (x ∷ xs) [] = false
same_bytes (x ∷ xs) (y ∷ ys) = (x == y) && same_bytes xs ys

unfoldable pub less : TopicPartition → TopicPartition → Bool
unfolding same_bytes less_bytes
less p q =
    if same_bytes p.topic q.topic then ltb p.partition q.partition else less_bytes p.topic q.topic

unfoldable pub same : TopicPartition → TopicPartition → Bool
unfolding same_bytes
same p q = same_bytes p.topic q.topic && (p.partition == q.partition)

-- Insertion at the `lower_bound`, unless the partition is there.
unfoldable pub insert_partition : TopicPartition → List TopicPartition → List TopicPartition
unfolding less same
insert_partition p [] = p ∷ []
insert_partition p (q ∷ qs) =
    let rest = insert_partition p qs in
    if less q p then q ∷ rest else if same q p then q ∷ qs else p ∷ q ∷ qs

unfoldable pub insert_each : List TopicPartition → List TopicPartition → List TopicPartition
unfolding insert_partition
insert_each [] qs = qs
insert_each (p ∷ ps) qs = insert_each ps (insert_partition p qs)

-- The vector without the partition, if the partition stands at the `lower_bound`.
unfoldable pub erase_partition : TopicPartition → List TopicPartition → Option (List TopicPartition)
unfolding less same
erase_partition p [] = none
erase_partition p (q ∷ qs) =
    let rest = erase_partition p qs in
    if less q p
    then elim rest [ none ↦ none | some left ↦ some (q ∷ left) ]
    else if same q p
    then some qs
    else none

pub same_bytes_self : (xs : Bytes) → same_bytes xs xs ≡ true
unfolding same_bytes
same_bytes_self [] = refl
same_bytes_self (x ∷ xs) = rw (==_self x, same_bytes_self xs) refl

pub same_bytes_eq : (xs ys : Bytes) → same_bytes xs ys ≡ true → xs ≡ ys
unfolding same_bytes
same_bytes_eq [] [] h = refl
same_bytes_eq [] (y ∷ ys) h = cc
same_bytes_eq (x ∷ xs) [] h = cc
same_bytes_eq (x ∷ xs) (y ∷ ys) h = ground (arith, same_bytes_eq xs ys, h)

same_eq : (p q : TopicPartition) → same p q ≡ true → p ≡ q
unfolding same
same_eq p q h = ground (arith, same_bytes_eq p.topic q.topic, h)

same_self : (p : TopicPartition) → same p p ≡ true
unfolding same
same_self p = rw (same_bytes_self p.topic) (ground arith)

less_self : (p : TopicPartition) → less p p ≡ false
unfolding less
less_self p = rw (same_bytes_self p.topic) (ground arith)

-- Each partition comes before all that stand behind it.
abbrev pub IsSorted : List TopicPartition → Type 0
IsSorted [] = Unit
IsSorted (p ∷ ps) = All (λ (q : TopicPartition). less p q ≡ true) ps × IsSorted ps

-- What an erasure of `p` leaves of `ps`: a part of it, without `p`.
pub record Left (p : TopicPartition) (ps left : List TopicPartition) : Type 1 where
  pub part : (P : TopicPartition → Type 0) → All P ps → All P left
  pub without : All (λ (q : TopicPartition). q ≢ p) left
  pub sorted : IsSorted left

pub All-imp :
    {P Q : TopicPartition → Type 0} (ps : List TopicPartition)
    → ((p : TopicPartition) → P p → Q p)
    → All P ps
    → All Q ps
All-imp [] f h = tt
All-imp (p ∷ ps) f (h, hs) = (f p h, All-imp ps f hs)

-- In a sorted vector a partition is found if it is there.
pub erase_partition_lem :
    (p : TopicPartition) (ps : List TopicPartition)
    → IsSorted ps
    → ((erase_partition p ps ≡ none) × All (λ (q : TopicPartition). q ≢ p) ps)
      ⊎ ((left : List TopicPartition) × (erase_partition p ps ≡ some left) × Left p ps left)
unfolding erase_partition
erase_partition_lem p [] h = inl (refl, tt)
erase_partition_lem p (q ∷ qs) (first, sorted) = elim (Bool-cases (less q p)) [
  | inl before ↦
      let other : q ≢ p = λ e. ground (arith, less_self p, before, ap (λ i. less i p) e) in
      elim (erase_partition_lem p qs sorted) [
        | inl (missing, none_is) ↦ inl (rw (before, missing) refl, (other, none_is))
        | inr (left, found, l) ↦ inr (
          q ∷ left,
          rw (before, found) refl,
          record {
            part = λ P h. (h.0, l.part P h.1);
            without = (other, l.without);
            sorted = (l.part (λ i. less q i ≡ true) first, l.sorted);
          },
        )
      ]
  | inr after ↦ elim (Bool-cases (same q p)) [
    | inl here ↦ inr (
      qs,
      rw (after, here) refl,
      record {
        part = λ P h. h.1;
        without =
            All-imp qs
              (λ i b e.
                ground
                  (arith, less_self p, b, ap (λ j. less j i) (same_eq q p here), ap (less p) e))
              first;
        sorted = sorted;
      },
    )
    | inr other ↦ inl (
      rw (after, other) refl,
      (
        λ e. ground (arith, same_self p, other, ap (λ i. same i p) e),
        All-imp qs (λ i b e. ground (arith, after, b, ap (less q) e)) first,
      ),
    )
  ]
]
