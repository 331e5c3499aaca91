-- ===== src/Broker/Coordinator/Keyed.antt =====
-- An `unordered_map` with numbers as keys.
use nexus_mq.Base.{ℕ, ◌≡◌, refl, List, [], ◌∷◌, Option, none, some, ◌==◌, if◌then◌else◌, arith}

abbrev pub Table {ℓ} : Type ℓ → Type ℓ
Table V = List (ℕ × V)

module _ {ℓ} {V : Type ℓ} where
  unfoldable pub lookup : ℕ → Table V → Option V
  lookup k [] = none
  lookup k ((j, v) ∷ t) = if j == k then some v else lookup k t

  unfoldable pub store : ℕ → V → Table V → Table V
  store k v [] = (k, v) ∷ []
  store k v ((j, w) ∷ t) = if j == k then (k, v) ∷ t else (j, w) ∷ store k v t

  pub lookup-store :
      (k j : ℕ) (v : V) (t : Table V)
      → lookup j (store k v t) ≡ (if k == j then some v else lookup j t)
  unfolding lookup store
  lookup-store k j v [] = refl
  lookup-store k j v ((i, w) ∷ t) = ground (arith, lookup-store k j v t)
