-- ===== src/Reactor/SpscQueue/Fifo.antt =====
-- What the queue promises: a first-in, first-out list of at most `2 ^ k` values.
use nexus_mq.Base.{ℕ, ◌^◌, ◌<◌, ◌≡◌, List, [], ◌∷◌, ◌++◌, length}
use nexus_mq.Reactor.SpscQueue.{Event, silent, pushed, refused, popped, found_empty}

module _ {ℓ} {A : Type ℓ} (k : ℕ) where
  -- What a call that returns so does to the list.
  abbrev pub Does : List A → Event A → List A → Type ℓ
  Does q silent r = r ≡ q
  Does q (pushed v) r = (length q < 2 ^ k) × (r ≡ q ++ v ∷ [])
  Does q (refused v) r = (length q ≡ 2 ^ k) × (r ≡ q)
  Does q (popped v) r = q ≡ v ∷ r
  Does q found_empty r = (q ≡ []) × (r ≡ q)

  -- The calls one after the other.
  abbrev pub DoesEach : List A → List (Event A) → List A → Type ℓ
  DoesEach q [] r = r ≡ q
  DoesEach q (e ∷ es) r = (m : List A) × Does q e m × DoesEach m es r
