-- ===== src/Broker/Coordinator/Partitions/Order.antt =====
-- The order of the partitions, and that an insertion keeps a vector of them in order.
use nexus_mq.Base.{◌≡◌, refl, ap, List, [], ◌∷◌, true, false, All, inl, inr, Bool-cases, arith}
use nexus_mq.Wire.Bytes.{Bytes}
use nexus_mq.Broker.Coordinator.Partitions.{
  TopicPartition, less_bytes, same_bytes, less, same, same_bytes_eq, All-imp, IsSorted,
  insert_partition, insert_each,
}

less_bytes_trans :
    (xs ys zs : Bytes) → less_bytes xs ys ≡ true → less_bytes ys zs ≡ true → less_bytes xs zs ≡ true
unfolding less_bytes
less_bytes_trans [] [] zs h k = absurd (ground (arith, h))
less_bytes_trans [] (y ∷ ys) [] h k = absurd (ground (arith, k))
less_bytes_trans [] (y ∷ ys) (z ∷ zs) h k = refl
less_bytes_trans (x ∷ xs) [] zs h k = absurd (ground (arith, h))
less_bytes_trans (x ∷ xs) (y ∷ ys) [] h k = absurd (ground (arith, k))
less_bytes_trans (x ∷ xs) (y ∷ ys) (z ∷ zs) h k = ground (arith, less_bytes_trans xs ys zs, h, k)

-- Of two that differ, one comes first.
less_bytes_total :
    (xs ys : Bytes) → same_bytes xs ys ≡ false → less_bytes xs ys ≡ false → less_bytes ys xs ≡ true
unfolding less_bytes same_bytes
less_bytes_total [] [] h k = absurd (ground (arith, h))
less_bytes_total [] (y ∷ ys) h k = absurd (ground (arith, k))
less_bytes_total (x ∷ xs) [] h k = refl
less_bytes_total (x ∷ xs) (y ∷ ys) h k = ground (arith, less_bytes_total xs ys, h, k)

same_bytes_sym : (xs ys : Bytes) → same_bytes xs ys ≡ same_bytes ys xs
unfolding same_bytes
same_bytes_sym [] [] = refl
same_bytes_sym [] (y ∷ ys) = refl
same_bytes_sym (x ∷ xs) [] = refl
same_bytes_sym (x ∷ xs) (y ∷ ys) = ground (arith, same_bytes_sym xs ys)

less_total : (p q : TopicPartition) → less p q ≡ false → same p q ≡ false → less q p ≡ true
unfolding less same
less_total p q h k =
    ground (arith, less_bytes_total p.topic q.topic, same_bytes_sym p.topic q.topic, h, k)

less_bytes_self : (xs : Bytes) → less_bytes xs xs ≡ false
unfolding less_bytes
less_bytes_self [] = refl
less_bytes_self (x ∷ xs) = ground (arith, less_bytes_self xs)

less_trans : (p q r : TopicPartition) → less p q ≡ true → less q r ≡ true → less p r ≡ true
unfolding less
less_trans p q r h k = elim (Bool-cases (same_bytes p.topic q.topic)) [
  | inl a ↦
      let e : p.topic ≡ q.topic = same_bytes_eq p.topic q.topic a in
      ground (arith, h, k, a, ap (λ t. same_bytes t r.topic) e, ap (λ t. less_bytes t r.topic) e)
  | inr a ↦ elim (Bool-cases (same_bytes q.topic r.topic)) [
    | inl b ↦
        let e : q.topic ≡ r.topic = same_bytes_eq q.topic r.topic b in
        ground (arith, h, k, a, b, ap (same_bytes p.topic) e, ap (less_bytes p.topic) e)
    | inr b ↦ elim (Bool-cases (same_bytes p.topic r.topic)) [
      | inl c ↦
          let e : p.topic ≡ r.topic = same_bytes_eq p.topic r.topic c in
          ground (
            arith,
            h,
            k,
            a,
            b,
            ap (less_bytes q.topic) e,
            less_bytes_trans p.topic q.topic p.topic,
            less_bytes_self p.topic,
          )
      | inr c ↦ ground (arith, h, k, a, b, c, less_bytes_trans p.topic q.topic r.topic)
    ]
  ]
]

All-insert :
    (P : TopicPartition → Type 0) (p : TopicPartition) (qs : List TopicPartition)
    → P p
    → All P qs
    → All P (insert_partition p qs)
unfolding insert_partition
All-insert P p [] h hs = (h, tt)
All-insert P p (q ∷ qs) h (k, ks) = elim (Bool-cases (less q p)) [
  | inl before ↦ rw before (k, All-insert P p qs h ks)
  | inr after ↦ elim (Bool-cases (same q p)) [
    | inl here ↦ rw (after, here) (k, ks)
    | inr other ↦ rw (after, other) (h, (k, ks))
  ]
]

insert_partition-IsSorted :
    (p : TopicPartition) (qs : List TopicPartition) → IsSorted qs → IsSorted (insert_partition p qs)
unfolding insert_partition
insert_partition-IsSorted p [] h = (tt, tt)
insert_partition-IsSorted p (q ∷ qs) (first, sorted) = elim (Bool-cases (less q p)) [
  | inl before ↦ rw before (
    All-insert (λ (i : TopicPartition). less q i ≡ true) p qs before first,
    insert_partition-IsSorted p qs sorted,
  )
  | inr after ↦ elim (Bool-cases (same q p)) [
    | inl here ↦ rw (after, here) (first, sorted)
    | inr other ↦
        let next = less_total q p after other in
        rw (after, other)
          ((next, All-imp qs (λ i b. less_trans p q i next b) first), (first, sorted))
  ]
]

-- Partitions that are added to a vector in order leave it in order.
pub insert_each-IsSorted :
    (ps qs : List TopicPartition) → IsSorted qs → IsSorted (insert_each ps qs)
unfolding insert_each
insert_each-IsSorted [] qs h = h
insert_each-IsSorted (p ∷ ps) qs h =
    insert_each-IsSorted ps (insert_partition p qs) (insert_partition-IsSorted p qs h)
