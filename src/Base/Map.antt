-- ===== src/Base/Map.antt =====
-- An `unordered_map` from numbers to numbers, as an association list. A missing key reads as 0,
-- which is also what `operator[]` inserts for it.
use nexus_mq.Base.{ℕ, ◌≡◌, refl, List, [], ◌∷◌, ◌==◌, if◌then◌else◌, arith}

abbrev pub Map : Type 0
Map = List (ℕ × ℕ)

unfoldable pub find : ℕ → Map → ℕ
find k [] = 0
find k ((j, v) ∷ m) = if j == k then v else find k m

unfoldable pub assign : ℕ → ℕ → Map → Map
assign k v [] = (k, v) ∷ []
assign k v ((j, w) ∷ m) = if j == k then (k, v) ∷ m else (j, w) ∷ assign k v m

pub find-assign : (k j v : ℕ) (m : Map) → find j (assign k v m) ≡ (if k == j then v else find j m)
unfolding find assign
find-assign k j v [] = refl
find-assign k j v ((i, w) ∷ m) = ground (arith, find-assign k j v m)
