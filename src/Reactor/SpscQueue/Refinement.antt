-- ===== src/Reactor/SpscQueue/Refinement.antt =====
-- The ring behaves as the list of its values, however the two threads are interleaved.
pub mod Accesses
use nexus_mq.Base.{
  ℕ, suc, ◌+◌, ◌-◌, ◌%◌, ◌^◌, ◌≤◌, ◌<◌, ◌≡◌, ◌≢◌, refl, sym, ap, subst, ◌∙◌, ◌⊎◌, inl, inr, List,
  [], ◌∷◌, ◌++◌, Bool, true, false, length, length-append, arith, ◌==◌, ==_iff, if◌then◌else◌,
  Bool-cases,
}
use nexus_mq.Reactor.SpscQueue.{
  SpscQueue, Producer, resting, has_tail, may_write, has_written, Consumer, waiting, has_head,
  may_read, has_read, Event, silent, pushed, refused, popped, found_empty, Threads, Turn, produce,
  consume, add_size, sub_size, cell, write_cell, produce_access, consume_access, turn, run, created,
}
use nexus_mq.Reactor.SpscQueue.Fifo.{Does, DoesEach}
use nexus_mq.Reactor.SpscQueue.Counters.{
  sub_size-mod, mod-same, add_size-mod, cell-mod, cell-distinct,
}

no_values {ℓ} : {A : Type ℓ} (q : List A) → length q ≡ 0 → q ≡ []
no_values [] e = refl
no_values (x ∷ q) e = absurd (omega arith)

module _ {ℓ} {A : Type ℓ} (k : ℕ) where
  -- The values lie in the cells from counter `first` on.
  abbrev Holds : (ℕ → A) → ℕ → List A → Type ℓ
  Holds buf first [] = Unit
  Holds buf first (x ∷ xs) = (buf (cell k first) ≡ x) × Holds buf (suc first) xs

  -- What the producer knows, `last` being the tail before it wraps around.
  abbrev Knows : (ℕ → A) → ℕ → ℕ → Producer A → Type ℓ
  Knows buf first last resting = Unit
  Knows buf first last (has_tail v t) = Unit {ℓ} × (t ≡ last % 2 ^ 64)
  Knows buf first last (may_write v t) = Unit {ℓ} × (t ≡ last % 2 ^ 64) × (last < first + 2 ^ k)
  Knows buf first last (has_written v t) =
      (t ≡ last % 2 ^ 64) × (last < first + 2 ^ k) × (buf (cell k last) ≡ v)

  -- What the consumer knows, `first` being the head before it wraps around.
  abbrev Sees : (ℕ → A) → ℕ → ℕ → Consumer A → Type ℓ
  Sees buf first last waiting = Unit
  Sees buf first last (has_head h) = Unit {ℓ} × (h ≡ first % 2 ^ 64)
  Sees buf first last (may_read h) = Unit {ℓ} × (h ≡ first % 2 ^ 64) × (first < last)
  Sees buf first last (has_read v h) =
      (h ≡ first % 2 ^ 64) × (first < last) × (buf (cell k first) ≡ v)

  record Stored (b : SpscQueue A) (q : List A) (first last : ℕ) : Type ℓ where
    head_is : b.head ≡ first % 2 ^ 64
    tail_is : b.tail ≡ last % 2 ^ 64
    counted : last ≡ first + length q
    fits : length q ≤ 2 ^ k
    holds : Holds b.buf first q

  -- The ring stands for the list, and the threads know what they rely on.
  pub record Represents (s : Threads A) (q : List A) : Type ℓ where
    first : ℕ
    last : ℕ
    stored : Stored s.queue q first last
    knows : Knows s.queue.buf first last s.producer
    sees : Sees s.queue.buf first last s.consumer

  -- A write behind the values leaves them alone.
  write_beside :
      (buf : ℕ → A) (v : A) (pos last : ℕ)
      → pos < last
      → last < pos + 2 ^ k
      → write_cell (cell k last) v buf (cell k pos) ≡ buf (cell k pos)
  unfolding write_cell
  write_beside buf v pos last lo hi = elim (Bool-cases (cell k pos == cell k last)) [
    | inl same ↦
        absurd (cell-distinct k pos last lo hi ((==_iff (cell k pos) (cell k last)).0 same))
    | inr other ↦ rw other refl
  ]

  write_here : (buf : ℕ → A) (v : A) (pos : ℕ) → write_cell (cell k pos) v buf (cell k pos) ≡ v
  unfolding write_cell
  write_here buf v pos = rw ((==_iff (cell k pos) (cell k pos)).1 refl) refl

  Holds-write :
      (buf : ℕ → A) (v : A) (first last : ℕ) (q : List A)
      → first + length q ≤ last
      → last < first + 2 ^ k
      → Holds buf first q
      → Holds (write_cell (cell k last) v buf) first q
  Holds-write buf v first last [] lo hi h = tt
  Holds-write buf v first last (x ∷ xs) lo hi (e, h) = (
    write_beside buf v first last (omega arith) hi ∙ e,
    Holds-write buf v (suc first) last xs (omega arith) (omega arith) h,
  )

  Holds-snoc :
      (buf : ℕ → A) (v : A) (first : ℕ) (q : List A)
      → Holds buf first q
      → buf (cell k (first + length q)) ≡ v
      → Holds buf first (q ++ v ∷ [])
  Holds-snoc buf v first [] h e = (ap (λ n. buf (cell k n)) (omega arith) ∙ e, tt)
  Holds-snoc buf v first (x ∷ xs) (e, h) f =
      (e, Holds-snoc buf v (suc first) xs h (ap (λ n. buf (cell k n)) (omega arith) ∙ f))

  represents :
      (b : SpscQueue A) (p : Producer A) (c : Consumer A) (q : List A) (first last : ℕ)
      → Stored b q first last
      → Knows b.buf first last p
      → Sees b.buf first last c
      → Represents (record { queue = b; producer = p; consumer = c }) q
  represents b p c q first last stored knows sees = record {
    first = first;
    last = last;
    stored = stored;
    knows = knows;
    sees = sees;
  }

  -- What is stored has its number of values between the counters.
  room :
      (b : SpscQueue A) (q : List A) (first last t : ℕ)
      → k < 64
      → Stored b q first last
      → t ≡ last % 2 ^ 64
      → sub_size t b.head ≡ length q
  room b q first last t fit s e =
      ap (λ n. sub_size n b.head) e
      ∙ ap (λ n. sub_size (last % 2 ^ 64) n) s.head_is
      ∙ sub_size-mod k first last fit (omega (arith, s.counted)) (omega (arith, s.counted, s.fits))
      ∙ omega (arith, s.counted)

  -- What the consumer sees is not touched by a write behind the values.
  Sees-write :
      (buf : ℕ → A) (v : A) (first last : ℕ) (c : Consumer A)
      → last < first + 2 ^ k
      → Sees buf first last c
      → Sees (write_cell (cell k last) v buf) first last c
  Sees-write buf v first last waiting hi h = tt
  Sees-write buf v first last (has_head x) hi h = h
  Sees-write buf v first last (may_read x) hi h = h
  Sees-write buf v first last (has_read x y) hi (e, lo, f) =
      (e, lo, write_beside buf v first last lo hi ∙ f)

  Sees-push :
      (buf : ℕ → A) (first last : ℕ) (c : Consumer A)
      → Sees buf first last c
      → Sees buf first (last + 1) c
  Sees-push buf first last waiting h = tt
  Sees-push buf first last (has_head x) h = h
  Sees-push buf first last (may_read x) (u, e, lo) = (u, e, omega arith)
  Sees-push buf first last (has_read x y) (e, lo, f) = (e, omega arith, f)

  Knows-pop :
      (buf : ℕ → A) (first last : ℕ) (p : Producer A)
      → Knows buf first last p
      → Knows buf (first + 1) last p
  Knows-pop buf first last resting h = tt
  Knows-pop buf first last (has_tail v t) h = h
  Knows-pop buf first last (may_write v t) (u, e, hi) = (u, e, omega arith)
  Knows-pop buf first last (has_written v t) (e, hi, f) = (e, omega arith, f)

  Stored-write :
      (b : SpscQueue A) (v : A) (q : List A) (first last : ℕ)
      → last < first + 2 ^ k
      → Stored b q first last
      → Stored (record b { buf = write_cell (cell k last) v b.buf }) q first last
  Stored-write b v q first last hi s = record {
    head_is = s.head_is;
    tail_is = s.tail_is;
    counted = s.counted;
    fits = s.fits;
    holds = Holds-write b.buf v first last q (omega (arith, s.counted)) hi s.holds;
  }

  Stored-push :
      (b : SpscQueue A) (v : A) (q : List A) (first last t : ℕ)
      → last < first + 2 ^ k
      → t ≡ last % 2 ^ 64
      → b.buf (cell k last) ≡ v
      → Stored b q first last
      → Stored (record b { tail = add_size t 1 }) (q ++ v ∷ []) first (last + 1)
  Stored-push b v q first last t hi e f s =
      let grown : length (q ++ v ∷ []) ≡ length q + 1 = length-append q (v ∷ []) in
      record {
        head_is = s.head_is;
        tail_is = ap (λ n. add_size n 1) e ∙ add_size-mod last;
        counted = omega (arith, s.counted, grown);
        fits = omega (arith, s.counted, grown);
        holds = Holds-snoc b.buf v first q s.holds (ap (λ n. b.buf (cell k n)) (sym s.counted) ∙ f);
      }

  Stored-pop :
      (b : SpscQueue A) (x : A) (q : List A) (first last h : ℕ)
      → h ≡ first % 2 ^ 64
      → Stored b (x ∷ q) first last
      → Stored (record b { head = add_size h 1 }) q (first + 1) last
  Stored-pop b x q first last h e s = record {
    head_is = ap (λ n. add_size n 1) e ∙ add_size-mod first;
    tail_is = s.tail_is;
    counted = omega (arith, s.counted);
    fits = omega (arith, s.fits);
    holds = subst (λ n. Holds b.buf n q) (omega arith) s.holds.1;
  }
