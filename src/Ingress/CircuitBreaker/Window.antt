-- ===== src/Ingress/CircuitBreaker/Window.antt =====
-- The window's counters agree with its slots, over any sequence of calls.
use nexus_mq.Base.{
  ℕ, zero, suc, ◌+◌, ◌-◌, ◌%◌, ◌≤◌, ◌<◌, ◌≡◌, refl, sym, ap, subst, ◌∙◌, ◌⊎◌, inl, inr, List, [],
  ◌∷◌, Bool, true, false, leb, ◌==◌, ◌&&◌, if◌then◌else◌, length, drop, min, max, arith, ==_self,
}
use native.Mathlib.Nat.{mod-lt, mod-eq_of_lt}
use nexus_mq.Ingress.CircuitBreaker.{
  CircuitState, closed, opened, half_open, CircuitBreakerConfig, CircuitBreaker, clear_slots, slot,
  set_slot, init, trip_open, enter_half_open, close, record_result, ratio_reached, issue_probe,
  allow, resolve_probe, on_success, record_failure, on_failure, Call, asks, succeeds, fails, call,
  calls,
}

-- The number of failures in a window.
unfoldable pub count_failures : List Bool → ℕ
count_failures [] = 0
count_failures (b ∷ bs) = (if b then 1 else 0) + count_failures bs

count_failures-clear_slots : (n : ℕ) → count_failures (clear_slots n) ≡ 0
unfolding count_failures clear_slots
count_failures-clear_slots zero = refl
count_failures-clear_slots (suc n) = omega (arith, count_failures-clear_slots n)

length-clear_slots : (n : ℕ) → length (clear_slots n) ≡ n
unfolding clear_slots
length-clear_slots zero = refl
length-clear_slots (suc n) = ap suc (length-clear_slots n)

length-set_slot : (i : ℕ) (b : Bool) (bs : List Bool) → length (set_slot i b bs) ≡ length bs
unfolding set_slot
length-set_slot i b [] = refl
length-set_slot zero b (c ∷ bs) = refl
length-set_slot (suc i) b (c ∷ bs) = ap suc (length-set_slot i b bs)

-- What a write does to the number of failures.
count_failures-set_slot :
    (i : ℕ) (b : Bool) (bs : List Bool)
    → i < length bs
    → count_failures (set_slot i b bs) + (if slot bs i then 1 else 0)
      ≡ count_failures bs + (if b then 1 else 0)
unfolding count_failures set_slot slot
count_failures-set_slot i b [] h = absurd (omega arith)
count_failures-set_slot zero b (c ∷ bs) h = omega arith
count_failures-set_slot (suc i) b (c ∷ bs) h =
    omega (arith, count_failures-set_slot i b bs (omega arith))

slot-count_failures : (i : ℕ) (bs : List Bool) → (if slot bs i then 1 else 0) ≤ count_failures bs
unfolding count_failures slot
slot-count_failures i [] = omega arith
slot-count_failures zero (c ∷ bs) = omega arith
slot-count_failures (suc i) (c ∷ bs) = omega (arith, slot-count_failures i bs)

-- No slot from `i` on holds a failure.
abbrev pub IsClearFrom : ℕ → List Bool → Type 0
IsClearFrom i bs = count_failures (drop i bs) ≡ 0

IsClearFrom-slot : (i : ℕ) (bs : List Bool) → IsClearFrom i bs → slot bs i ≡ false
unfolding count_failures slot
IsClearFrom-slot zero [] h = refl
IsClearFrom-slot zero (true ∷ bs) h = absurd (omega arith)
IsClearFrom-slot zero (false ∷ bs) h = refl
IsClearFrom-slot (suc i) [] h = refl
IsClearFrom-slot (suc i) (c ∷ bs) h = IsClearFrom-slot i bs h

IsClearFrom-set_slot :
    (i : ℕ) (b : Bool) (bs : List Bool) → IsClearFrom i bs → IsClearFrom (suc i) (set_slot i b bs)
unfolding count_failures set_slot
IsClearFrom-set_slot zero b [] h = refl
IsClearFrom-set_slot zero b (c ∷ bs) h = omega arith
IsClearFrom-set_slot (suc i) b [] h = refl
IsClearFrom-set_slot (suc i) b (c ∷ bs) h = IsClearFrom-set_slot i b bs h

-- The counters describe the window: `failures` is the number of failures in it, and until it is
-- full it is filled from the first slot on.
pub record AreCounters (window : List Bool) (head count failures : ℕ) : Type 0 where
  pub head_inside : head < length window
  pub count_inside : count ≤ length window
  pub failures_counted : failures ≡ count_failures window
  pub filling : (count ≡ length window) ⊎ ((head ≡ count) × IsClearFrom count window)

abbrev pub IsCounted : CircuitBreaker → Type 0
IsCounted c = AreCounters c.window c.head c.count c.failures

IsClearFrom-clear_slots : (n : ℕ) → IsClearFrom 0 (clear_slots n)
IsClearFrom-clear_slots n = count_failures-clear_slots n

init-IsCounted : (config : CircuitBreakerConfig) → IsCounted (init config)
unfolding init
init-IsCounted config =
    let n : ℕ = max 1 config.window_size in
    record {
      head_inside = omega (arith, length-clear_slots n);
      count_inside = omega arith;
      failures_counted = sym (count_failures-clear_slots n);
      filling = inr (refl, IsClearFrom-clear_slots n);
    }

close-IsCounted : (c : CircuitBreaker) → IsCounted c → IsCounted (close c)
unfolding close
close-IsCounted c v = record {
  head_inside = omega (arith, length-clear_slots (length c.window), v.head_inside);
  count_inside = omega arith;
  failures_counted = sym (count_failures-clear_slots (length c.window));
  filling = inr (refl, IsClearFrom-clear_slots (length c.window));
}

≤_or_< : (a b : ℕ) → (a ≤ b) ⊎ (b < a)
≤_or_< a b = ground arith

-- The counter after a write: a failure that is overwritten is taken off, a new one is added.
counted :
    (full failure old : Bool) (failures before total : ℕ)
    → (full ≡ true) ⊎ (old ≡ false)
    → failures ≡ before
    → (if old then 1 else 0) ≤ before
    → total + (if old then 1 else 0) ≡ before + (if failure then 1 else 0)
    → (if failure
        then (if full && old then failures - 1 else failures) + 1
        else (if full && old then failures - 1 else failures))
      ≡ total
counted true true true f b t d e l w = omega arith
counted true true false f b t d e l w = omega arith
counted true false true f b t d e l w = omega arith
counted true false false f b t d e l w = omega arith
counted false true false f b t d e l w = omega arith
counted false false false f b t d e l w = omega arith
counted false true true f b t (inl d) e l w = cc
counted false true true f b t (inr d) e l w = cc
counted false false true f b t (inl d) e l w = cc
counted false false true f b t (inr d) e l w = cc

record_result_failures :
    (failure : Bool) (c : CircuitBreaker)
    → IsCounted c
    → (record_result failure c).failures ≡ count_failures (record_result failure c).window
unfolding record_result
record_result_failures failure c v =
    counted (c.count == length c.window) failure (slot c.window c.head) c.failures
      (count_failures c.window) (count_failures (set_slot c.head failure c.window))
      (elim v.filling [
        | inl full ↦
            inl (subst (λ n. (n == length c.window) ≡ true) (sym full) (==_self (length c.window)))
        | inr (here, clear) ↦ inr (
            subst (λ i. slot c.window i ≡ false) (sym here)
              (IsClearFrom-slot c.count c.window clear))
      ])
      v.failures_counted (slot-count_failures c.head c.window)
      (count_failures-set_slot c.head failure c.window v.head_inside)

-- A slot that was not the last is followed by the next one.
next_slot : (i n : ℕ) → suc i < n → (i + 1) % n ≡ suc i
next_slot i n h = mod-eq_of_lt (omega arith) ∙ omega arith

record_result_filling :
    (failure : Bool) (c : CircuitBreaker)
    → IsCounted c
    → let d = record_result failure c in
      (d.count ≡ length d.window) ⊎ ((d.head ≡ d.count) × IsClearFrom d.count d.window)
unfolding record_result
record_result_filling failure c v =
    let same = length-set_slot c.head failure c.window in
    elim v.filling [
      | inl full ↦ inl (omega (arith, full, same))
      | inr (here, clear) ↦ elim (≤_or_< (length c.window) (suc c.count)) [
        | inl last ↦ inl (omega (arith, last, same, v.count_inside))
        | inr room ↦
            let count : min (c.count + 1) (length c.window) ≡ suc c.count = omega (arith, room) in
            inr (
              next_slot c.head (length c.window) (omega (arith, here, room))
                  ∙ ap suc here
                  ∙ sym count,
              subst (λ i. IsClearFrom i (set_slot c.head failure c.window)) (sym count)
                  (subst (λ i. IsClearFrom (suc c.count) (set_slot i failure c.window)) (sym here)
                    (IsClearFrom-set_slot c.count failure c.window clear)),
            )
      ]
    ]

record_result-IsCounted :
    (failure : Bool) (c : CircuitBreaker) → IsCounted c → IsCounted (record_result failure c)
unfolding record_result
record_result-IsCounted failure c v = record {
  head_inside =
      subst (λ n. (c.head + 1) % length c.window < n)
        (sym (length-set_slot c.head failure c.window))
        (mod-lt (c.head + 1) (omega (arith, v.head_inside)));
  count_inside = omega (arith, length-set_slot c.head failure c.window);
  failures_counted = record_result_failures failure c v;
  filling = record_result_filling failure c v;
}

AreCounters-equal :
    {w w' : List Bool} {h h' n n' f f' : ℕ}
    → w' ≡ w
    → h' ≡ h
    → n' ≡ n
    → f' ≡ f
    → AreCounters w h n f
    → AreCounters w' h' n' f'
AreCounters-equal {w} {w'} {h} {h'} {n} {n'} {f} {f'} ew eh en ef v =
    subst (λ x. AreCounters x h' n' f') (sym ew)
      (subst (λ x. AreCounters w x n' f') (sym eh)
        (subst (λ x. AreCounters w h x f') (sym en) (subst (λ x. AreCounters w h n x) (sym ef) v)))

-- Asking for admission leaves the window and its counters.
allow_window :
    (now : ℕ) (c : CircuitBreaker)
    → let d = (allow now c).0 in
      (d.window ≡ c.window) × (d.head ≡ c.head) × (d.count ≡ c.count) × (d.failures ≡ c.failures)
unfolding allow enter_half_open issue_probe
allow_window now c = ground arith

allow-IsCounted : (now : ℕ) (c : CircuitBreaker) → IsCounted c → IsCounted (allow now c).0
allow-IsCounted now c v = let (w, h, n, f) = allow_window now c in AreCounters-equal w h n f v

by_state :
    (s : CircuitState) (x y z : CircuitBreaker)
    → IsCounted x
    → IsCounted y
    → IsCounted z
    → IsCounted (elim s [ closed ↦ x | half_open ↦ y | opened ↦ z ])
by_state closed x y z p q r = p
by_state half_open x y z p q r = q
by_state opened x y z p q r = r

either-IsCounted :
    (b : Bool) (x y : CircuitBreaker) → IsCounted x → IsCounted y → IsCounted (if b then x else y)
either-IsCounted true x y p q = p
either-IsCounted false x y p q = q

resolve_probe-IsCounted : (c : CircuitBreaker) → IsCounted c → IsCounted (resolve_probe c)
unfolding resolve_probe
resolve_probe-IsCounted c v =
    let c' : CircuitBreaker = record c { probe_successes = c.probe_successes + 1 } in
    either-IsCounted (leb c.config.half_open_probes (c.probe_successes + 1)) (close c') c'
      (close-IsCounted c' v) v

record_failure-IsCounted :
    (now : ℕ) (c : CircuitBreaker) → IsCounted c → IsCounted (record_failure now c)
unfolding record_failure trip_open
record_failure-IsCounted now c v =
    let c' : CircuitBreaker = record_result true c in
    either-IsCounted (ratio_reached c') (trip_open now c') c' (record_result-IsCounted true c v)
      (record_result-IsCounted true c v)

call-IsCounted : (c : CircuitBreaker) (x : Call) → IsCounted c → IsCounted (call c x)
unfolding call on_success on_failure trip_open
call-IsCounted c (asks now) v = allow-IsCounted now c v
call-IsCounted c succeeds v =
    by_state c.state (record_result false c) (resolve_probe c) c (record_result-IsCounted false c v)
      (resolve_probe-IsCounted c v) v
call-IsCounted c (fails now) v =
    by_state c.state (record_failure now c) (trip_open now c) c (record_failure-IsCounted now c v) v
      v

calls-IsCounted : (xs : List Call) (c : CircuitBreaker) → IsCounted c → IsCounted (calls c xs)
unfolding calls
calls-IsCounted [] c v = v
calls-IsCounted (x ∷ xs) c v = calls-IsCounted xs (call c x) (call-IsCounted c x v)

-- Whatever calls a new breaker has received, its counter of failures is the number of failures in
-- its window, the counted samples are no more than the window has slots, and the position that is
-- written next is inside.
pub calls_counted :
    (config : CircuitBreakerConfig) (xs : List Call)
    → let c = calls (init config) xs in
      (c.failures ≡ count_failures c.window)
      × (c.count ≤ length c.window)
      × (c.head < length c.window)
calls_counted config xs =
    let v = calls-IsCounted xs (init config) (init-IsCounted config) in
    (v.failures_counted, v.count_inside, v.head_inside)
