-- ===== src/Raft/Cluster/Majority.antt =====
-- Two majorities of the same voters have a voter in common.
use nexus_mq.Base.{
  ℕ, suc, ◌+◌, ◌*◌, ◌≤◌, ◌<◌, ◌≡◌, refl, sym, ◌⊎◌, inl, inr, List, [], ◌∷◌, true, false, arith,
  length, ◌==◌, ==_iff, ◌&&◌, if◌then◌else◌, Bool-cases,
}
use nexus_mq.Raft.Node.State.{contains, insert}

-- No element stands twice.
abbrev pub IsDistinct : List ℕ → Type 0
IsDistinct [] = Unit {0}
IsDistinct (x ∷ xs) = (contains xs x ≡ false) × IsDistinct xs

-- Every element of the first list is in the second.
abbrev pub AreAmong : List ℕ → List ℕ → Type 0
AreAmong [] vs = Unit {0}
AreAmong (x ∷ xs) vs = (contains vs x ≡ true) × AreAmong xs vs

pub insert-IsDistinct : (a : ℕ) (xs : List ℕ) → IsDistinct xs → IsDistinct (insert a xs)
unfolding insert
insert-IsDistinct a xs d = elim (Bool-cases (contains xs a)) [
  | inl old ↦ rw old d
  | inr new ↦ rw new (new, d)
]

pub insert-AreAmong :
    (a : ℕ) (xs vs : List ℕ) → contains vs a ≡ true → AreAmong xs vs → AreAmong (insert a xs) vs
unfolding insert
insert-AreAmong a xs vs h d = elim (Bool-cases (contains xs a)) [
  | inl old ↦ rw old d
  | inr new ↦ rw new (h, d)
]

pub single_vote : (x v : ℕ) → contains (x ∷ []) v ≡ true → v ≡ x
unfolding contains
single_vote x v h = sym ((==_iff x v).0 (ground (arith, h)))

pub insert_cases :
    (from v : ℕ) (votes : List ℕ)
    → contains (insert from votes) v ≡ true
    → (v ≡ from) ⊎ (contains votes v ≡ true)
unfolding insert contains
insert_cases from v votes h = elim (Bool-cases (contains votes from)) [
  | inl old ↦ inr (ground (arith, old, h))
  | inr new ↦ elim (Bool-cases (from == v)) [
    | inl same ↦ inl (sym ((==_iff from v).0 same))
    | inr other ↦ inr (ground (arith, new, other, h))
  ]
]

-- How many elements of `vs` are in `xs`.
unfoldable hits : List ℕ → List ℕ → ℕ
hits xs [] = 0
hits xs (v ∷ vs) = (if contains xs v then 1 else 0) + hits xs vs

hits-nil : (vs : List ℕ) → hits [] vs ≡ 0
unfolding hits contains
hits-nil [] = refl
hits-nil (v ∷ vs) = omega (arith, hits-nil vs)

-- A new element that is among the others counts for one more.
hits_grow : (x : ℕ) (xs vs : List ℕ) → hits xs vs ≤ hits (x ∷ xs) vs
unfolding hits contains
hits_grow x xs [] = omega arith
hits_grow x xs (v ∷ vs) = ground (arith, hits_grow x xs vs)

hits-cons :
    (x : ℕ) (xs vs : List ℕ)
    → contains xs x ≡ false
    → contains vs x ≡ true
    → suc (hits xs vs) ≤ hits (x ∷ xs) vs
unfolding hits contains
hits-cons x xs [] new there = cc
hits-cons x xs (v ∷ vs) new there = elim (Bool-cases (v == x)) [
  | inl here ↦ let same : v ≡ x = (==_iff v x).0 here in ground (arith, same, hits_grow x xs vs)
  | inr later ↦ ground (arith, hits-cons x xs vs)
]

length-hits : (xs vs : List ℕ) → IsDistinct xs → AreAmong xs vs → length xs ≤ hits xs vs
length-hits [] vs d a = omega arith
length-hits (x ∷ xs) vs (new, d) (there, a) =
    omega (arith, length-hits xs vs d a, hits-cons x xs vs new there)

-- Two lists that hit `vs` more often than it is long hit it at a common element.
common_hit :
    (xs ys vs : List ℕ)
    → length vs < hits xs vs + hits ys vs
    → (v : ℕ) × (contains xs v ≡ true) × (contains ys v ≡ true)
unfolding hits
common_hit xs ys [] h = absurd (omega arith)
common_hit xs ys (v ∷ vs) h = elim (Bool-cases (contains xs v && contains ys v)) [
  | inl both ↦ (v, ground arith, ground arith)
  | inr one ↦ common_hit xs ys vs (ground (arith, h, one))
]

pub common_vote :
    (xs ys vs : List ℕ)
    → IsDistinct xs
    → IsDistinct ys
    → AreAmong xs vs
    → AreAmong ys vs
    → length vs < length xs * 2
    → length vs < length ys * 2
    → (v : ℕ) × (contains xs v ≡ true) × (contains ys v ≡ true)
common_vote xs ys vs dx dy ax ay hx hy =
    common_hit xs ys vs (omega (arith, length-hits xs vs dx ax, length-hits ys vs dy ay))
