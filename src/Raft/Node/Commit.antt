-- ===== src/Raft/Node/Commit.antt =====
-- The rule by which a leader commits: a majority of the voters, and an entry of its own term.
use nexus_mq.Base.{
  ℕ, zero, suc, ◌+◌, ◌*◌, ◌/◌, ◌≤◌, ◌<◌, ◌≡◌, ◌≢◌, refl, ◌∙◌, inl, inr, List, [], ◌∷◌, true, arith,
  length, leb, if◌then◌else◌, Bool-cases,
}
use nexus_mq.Raft.Log.{Storage, holds_entry}
use nexus_mq.Raft.Node.State.{RaftNode, count_voters, cluster_size}
use nexus_mq.Raft.Node.Replication.{
  insert_desc, sort_desc, nth, peer_matches, matches, majority_match, set_commit_index,
  advance_commit_index,
}

-- How many of the indices reach `k`.
pub count_reaching : ℕ → List ℕ → ℕ
count_reaching k [] = 0
count_reaching k (x ∷ xs) = (if leb k x then 1 else 0) + count_reaching k xs

-- Every element is at most `b`, and the elements fall along the list.
abbrev Descends : ℕ → List ℕ → Type 0
Descends b [] = Unit {0}
Descends b (x ∷ xs) = (x ≤ b) × Descends x xs

count_reaching-insert_desc :
    (k a : ℕ) (xs : List ℕ) → count_reaching k (insert_desc a xs) ≡ count_reaching k (a ∷ xs)
unfolding count_reaching insert_desc
count_reaching-insert_desc k a [] = refl
count_reaching-insert_desc k a (x ∷ xs) = ground (arith, count_reaching-insert_desc k a xs)

count_reaching-cons :
    (k x : ℕ) (xs ys : List ℕ)
    → count_reaching k xs ≡ count_reaching k ys
    → count_reaching k (x ∷ xs) ≡ count_reaching k (x ∷ ys)
unfolding count_reaching
count_reaching-cons k x xs ys e = omega arith

count_reaching-sort_desc :
    (k : ℕ) (xs : List ℕ) → count_reaching k (sort_desc xs) ≡ count_reaching k xs
unfolding sort_desc
count_reaching-sort_desc k [] = refl
count_reaching-sort_desc k (x ∷ xs) =
    count_reaching-insert_desc k x (sort_desc xs)
    ∙ count_reaching-cons k x (sort_desc xs) xs (count_reaching-sort_desc k xs)

length-insert_desc : (a : ℕ) (xs : List ℕ) → length (insert_desc a xs) ≡ suc (length xs)
unfolding insert_desc
length-insert_desc a [] = refl
length-insert_desc a (x ∷ xs) = ground (arith, length-insert_desc a xs)

length-sort_desc : (xs : List ℕ) → length (sort_desc xs) ≡ length xs
unfolding sort_desc
length-sort_desc [] = refl
length-sort_desc (x ∷ xs) = omega (arith, length-insert_desc x (sort_desc xs), length-sort_desc xs)

insert_desc-Descends :
    (b a : ℕ) (xs : List ℕ) → a ≤ b → Descends b xs → Descends b (insert_desc a xs)
unfolding insert_desc
insert_desc-Descends b a [] h d = (h, tt)
insert_desc-Descends b a (x ∷ xs) h d = elim (Bool-cases (leb x a)) [
  | inl le ↦ rw le (h, (ground arith, d.1))
  | inr gt ↦ rw gt (d.0, insert_desc-Descends x a xs (ground arith) d.1)
]

-- The greatest element bounds the sorted list.
abbrev bound : List ℕ → ℕ
bound [] = 0
bound (x ∷ xs) = x + bound xs

Descends-mono : (b c : ℕ) (xs : List ℕ) → b ≤ c → Descends b xs → Descends c xs
Descends-mono b c [] h d = tt
Descends-mono b c (x ∷ xs) h d = (omega arith, d.1)

sort_desc-Descends : (xs : List ℕ) → Descends (bound xs) (sort_desc xs)
unfolding sort_desc
sort_desc-Descends [] = tt
sort_desc-Descends (x ∷ xs) =
    insert_desc-Descends (bound (x ∷ xs)) x (sort_desc xs) (omega arith) (
      Descends-mono (bound xs) (bound (x ∷ xs)) (sort_desc xs) (omega arith)
        (sort_desc-Descends xs))

-- In a falling list the elements up to place `i` reach the one that stands there.
nth-le : (b : ℕ) (xs : List ℕ) (i : ℕ) → Descends b xs → nth xs i ≤ b
unfolding nth
nth-le b [] i d = omega arith
nth-le b (x ∷ xs) zero d = d.0
nth-le b (x ∷ xs) (suc i) d = omega (arith, nth-le x xs i d.1)

count_reaching-nth :
    (b : ℕ) (xs : List ℕ) (i : ℕ) → Descends b xs → i < length xs → i < count_reaching (nth xs i) xs
unfolding count_reaching nth
count_reaching-nth b [] i d h = absurd (omega arith)
count_reaching-nth b (x ∷ xs) zero d h = ground arith
count_reaching-nth b (x ∷ xs) (suc i) d h =
    ground (arith, count_reaching-nth x xs i d.1 (omega arith), nth-le x xs i d.1)

nth-nil : (i : ℕ) → nth [] i ≡ 0
unfolding nth
nth-nil i = refl

-- The middle element of the sorted indices is reached by more than half of them.
middle_majority :
    (xs : List ℕ)
    → 0 < nth (sort_desc xs) (length xs / 2)
    → length xs < count_reaching (nth (sort_desc xs) (length xs / 2)) xs * 2
middle_majority [] h = absurd (unfold sort_desc nth in omega arith)
middle_majority (x ∷ xs) h =
    let all : List ℕ = x ∷ xs in
    let i : ℕ = length all / 2 in
    omega (
      arith,
      length-sort_desc all,
      count_reaching-nth (bound all) (sort_desc all) i (sort_desc-Descends all)
          (omega (arith, length-sort_desc all)),
      count_reaching-sort_desc (nth (sort_desc all) i) all,
    )

module _ {S : Storage} where
  length-peer_matches :
      (n : RaftNode S) (peers : List ℕ) → length (peer_matches n peers) ≡ count_voters n peers
  unfolding peer_matches count_voters
  length-peer_matches n [] = refl
  length-peer_matches n (peer ∷ peers) = ground (arith, length-peer_matches n peers)

  -- There is one match index for each voter.
  length-matches : (n : RaftNode S) → length (matches n) ≡ cluster_size n
  unfolding matches cluster_size
  length-matches n = ground (arith, length-peer_matches n n.peers)

  -- When the commit index is moved, it rises to an index that the match indices of more than half of
  -- the voters reach, the node's own being its last index, and the entry there is of the current
  -- term.
  pub advance_commit_index_majority :
      (n : RaftNode S)
      → (advance_commit_index n).commit_index ≢ n.commit_index
      → let index = (advance_commit_index n).commit_index in
        (n.commit_index < index)
        × (cluster_size n < count_reaching index (matches n) * 2)
        × (holds_entry index n.current_term n.log ≡ true)
  unfolding advance_commit_index set_commit_index majority_match
  advance_commit_index_majority n moved =
      ground (arith, middle_majority (matches n), length-matches n)
