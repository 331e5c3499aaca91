-- ===== src/Reactor/SpscQueue/Refinement/Accesses.antt =====
-- What each access of a thread does to the list.
use nexus_mq.Base.{
  ℕ, ◌+◌, ◌^◌, ◌<◌, ◌≡◌, refl, sym, ap, ◌∙◌, inl, inr, List, [], ◌∷◌, ◌++◌, arith, ◌==◌, ==_iff,
  Bool-cases,
}
use nexus_mq.Reactor.SpscQueue.{
  SpscQueue, Producer, resting, has_tail, may_write, has_written, Consumer, waiting, has_head,
  may_read, has_read, Event, Threads, Turn, produce, consume, add_size, sub_size, cell, write_cell,
  produce_access, consume_access, turn, run, created,
}
use nexus_mq.Reactor.SpscQueue.Fifo.{Does, DoesEach}
use nexus_mq.Reactor.SpscQueue.Counters.{mod-same, cell-mod}
use nexus_mq.Reactor.SpscQueue.Refinement.{
  no_values, Knows, Sees, Stored, Represents, write_here, represents, room, Sees-write, Sees-push,
  Knows-pop, Stored-write, Stored-push, Stored-pop,
}

module _ {ℓ} {A : Type ℓ} (k : ℕ) where
  abbrev Moves : SpscQueue A → Producer A → Consumer A → Event A → List A → Type ℓ
  Moves b p c e q =
      (r : List A) × Does k q e r
      × Represents k (record { queue = b; producer = p; consumer = c }) r

  -- An access of the producer.
  produce-Moves :
      (v : A) (b : SpscQueue A) (p : Producer A) (c : Consumer A) (q : List A) (first last : ℕ)
      → k < 64
      → Stored k b q first last
      → Knows k b.buf first last p
      → Sees k b.buf first last c
      → let (b', p', e) = produce_access k v b p in Moves b' p' c e q
  unfolding produce_access
  produce-Moves v b resting c q first last fit s knows sees =
      (q, refl, represents k b (has_tail v b.tail) c q first last s (tt, s.tail_is) sees)
  produce-Moves v b (has_tail w t) c q first last fit s (u, e) sees =
      let used = room k b q first last t fit s e in
      elim (Bool-cases (sub_size t b.head == 2 ^ k)) [
        | inl full ↦ rw full (
          q,
          (sym used ∙ (==_iff (sub_size t b.head) (2 ^ k)).0 full, refl),
          represents k b resting c q first last s tt sees,
        )
        | inr free ↦ rw free (
          q,
          refl,
          represents k b (may_write w t) c q first last s
              (tt, e, ground (arith, s.counted, s.fits, used, free)) sees,
        )
      ]
  produce-Moves v b (may_write w t) c q first last fit s (u, e, hi) sees =
      let place : cell k t ≡ cell k last = ap (cell k) e ∙ cell-mod k last fit in
      rw place (
        q,
        refl,
        represents k (record b { buf = write_cell (cell k last) w b.buf }) (has_written w t) c q
            first last (Stored-write k b w q first last hi s) (e, hi, write_here k b.buf w last)
            (Sees-write k b.buf w first last c hi sees),
      )
  produce-Moves v b (has_written w t) c q first last fit s (e, hi, f) sees = (
    q ++ w ∷ [],
    (omega (arith, s.counted), refl),
    represents k (record b { tail = add_size t 1 }) resting c (q ++ w ∷ []) first (last + 1)
        (Stored-push k b w q first last t hi e f s) tt (Sees-push k b.buf first last c sees),
  )

  -- An access of the consumer.
  consume-Moves :
      (b : SpscQueue A) (p : Producer A) (c : Consumer A) (q : List A) (first last : ℕ)
      → k < 64
      → Stored k b q first last
      → Knows k b.buf first last p
      → Sees k b.buf first last c
      → let (b', c', e) = consume_access k b c in Moves b' p c' e q
  unfolding consume_access
  consume-Moves b p waiting q first last fit s knows sees =
      (q, refl, represents k b p (has_head b.head) q first last s knows (tt, s.head_is))
  consume-Moves b p (has_head h) q first last fit s knows (u, e) = elim (Bool-cases (h == b.tail)) [
    | inl same ↦
        let none_left : first ≡ last =
          mod-same k first last fit (omega (arith, s.counted)) (omega (arith, s.counted, s.fits))
            (sym e ∙ (==_iff h b.tail).0 same ∙ s.tail_is) in
        rw same (
          q,
          (no_values q (omega (arith, s.counted)), refl),
          represents k b p waiting q first last s knows tt,
        )
    | inr other ↦ rw other (
      q,
      refl,
      represents k b p (may_read h) q first last s knows
          (tt, e, ground (arith, e, s.tail_is, s.counted, other)),
    )
  ]
  consume-Moves b p (may_read h) q first last fit s knows (u, e, lo) =
      let place : cell k h ≡ cell k first = ap (cell k) e ∙ cell-mod k first fit in
      (
        q,
        refl,
        represents k b p (has_read (b.buf (cell k h)) h) q first last s knows
            (e, lo, ap b.buf (sym place)),
      )
  consume-Moves b p (has_read x h) [] first last fit s knows (e, lo, f) =
      absurd (omega (arith, s.counted))
  consume-Moves b p (has_read x h) (y ∷ q) first last fit s knows (e, lo, f) = (
    q,
    ap (λ z. z ∷ q) (sym s.holds.0 ∙ f),
    represents k (record b { head = add_size h 1 }) p waiting q (first + 1) last
        (Stored-pop k b y q first last h e s) (Knows-pop k b.buf first last p knows) tt,
  )

  turn-Moves :
      (t : Turn A) (s : Threads A) (q : List A)
      → k < 64
      → Represents k s q
      → (r : List A) × Does k q (turn k t s).1 r × Represents k (turn k t s).0 r
  unfolding turn
  turn-Moves (produce v) s q fit r =
      produce-Moves v s.queue s.producer s.consumer q r.first r.last fit r.stored r.knows r.sees
  turn-Moves consume s q fit r =
      consume-Moves s.queue s.producer s.consumer q r.first r.last fit r.stored r.knows r.sees

  run-DoesEach :
      (ts : List (Turn A)) (s : Threads A) (q : List A)
      → k < 64
      → Represents k s q
      → (r : List A) × DoesEach k q (run k ts s) r
  unfolding run
  run-DoesEach [] s q fit r = (q, refl)
  run-DoesEach (t ∷ ts) s q fit r =
      let (m, does, r') = turn-Moves t s q fit r in
      let (l, rest) = run-DoesEach ts (turn k t s).0 m fit r' in (l, (m, does, rest))

  -- However the accesses of the producer and the consumer are interleaved, their calls return what
  -- a list of at most `2 ^ k` values, first in and first out, returns to the same calls: a push is
  -- refused exactly on a full list, a pop finds nothing exactly on an empty one, and what is popped
  -- is the oldest value. The counters may wrap around.
  pub run-refines :
      (cells : ℕ → A) (ts : List (Turn A))
      → k < 64
      → (r : List A) × DoesEach k [] (run k ts (created cells)) r
  run-refines cells ts fit = run-DoesEach ts (created cells) [] fit (
      represents k (created cells).queue resting waiting [] 0 0
        (record { head_is = refl; tail_is = refl; counted = refl; fits = omega arith; holds = tt })
        tt tt)
