-- ===== src/Ingress/CircuitBreaker.antt =====
-- ingress/circuit_breaker.cpp: the circuit breaker and its sliding window. Instants are nanoseconds.
pub mod Window
pub mod Probes
use nexus_mq.Base.{
  ℕ, zero, suc, ◌+◌, ◌-◌, ◌*◌, ◌%◌, ◌≡◌, List, [], ◌∷◌, Bool, true, false, ltb, leb, ◌==◌, ◌&&◌,
  if◌then◌else◌, length, min, max,
}

pub data CircuitState : Type 0 where
  closed opened half_open : CircuitState

-- `reaches failures count` is the comparison of the quotient with `failure_ratio`, which the
-- processor makes on two doubles; 0.0 is the quotient of 0 and 1.
pub record CircuitBreakerConfig : Type 0 where
  pub window_size : ℕ
  pub min_samples : ℕ
  pub reaches : ℕ → ℕ → Bool
  pub open_timeout : ℕ
  pub half_open_probes : ℕ

pub record CircuitBreaker : Type 0 where
  pub config : CircuitBreakerConfig
  pub state : CircuitState
  pub window : List Bool
  pub head : ℕ
  pub count : ℕ
  pub failures : ℕ
  pub opened_at : ℕ
  pub probes_issued : ℕ
  pub probe_successes : ℕ

-- A window of `n` slots without a failure.
unfoldable pub clear_slots : ℕ → List Bool
clear_slots zero = []
clear_slots (suc n) = false ∷ clear_slots n

-- Reading and writing a slot; the source touches none past the end.
unfoldable pub slot : List Bool → ℕ → Bool
slot [] i = false
slot (b ∷ bs) zero = b
slot (b ∷ bs) (suc i) = slot bs i

unfoldable pub set_slot : ℕ → Bool → List Bool → List Bool
set_slot i b [] = []
set_slot zero b (c ∷ bs) = b ∷ bs
set_slot (suc i) b (c ∷ bs) = c ∷ set_slot i b bs

unfoldable pub init : CircuitBreakerConfig → CircuitBreaker
unfolding clear_slots
init config = record {
  config = config;
  state = closed;
  window = clear_slots (max 1 config.window_size);
  head = 0;
  count = 0;
  failures = 0;
  opened_at = 0;
  probes_issued = 0;
  probe_successes = 0;
}

unfoldable pub trip_open : ℕ → CircuitBreaker → CircuitBreaker
trip_open now c = record c { state = opened; opened_at = now }

unfoldable pub enter_half_open : CircuitBreaker → CircuitBreaker
enter_half_open c = record c { state = half_open; probes_issued = 0; probe_successes = 0 }

unfoldable pub close : CircuitBreaker → CircuitBreaker
unfolding clear_slots
close c = record c {
  state = closed;
  window = clear_slots (length c.window);
  head = 0;
  count = 0;
  failures = 0;
}

unfoldable pub record_result : Bool → CircuitBreaker → CircuitBreaker
unfolding slot set_slot
record_result failure c =
    let kept =
      if c.count == length c.window && slot c.window c.head then c.failures - 1 else c.failures in
    record c {
      window = set_slot c.head failure c.window;
      failures = if failure then kept + 1 else kept;
      head = (c.head + 1) % length c.window;
      count = min (c.count + 1) (length c.window);
    }

-- `window_failure_ratio() >= failure_ratio`
unfoldable pub ratio_reached : CircuitBreaker → Bool
ratio_reached c =
    if ltb c.count c.config.min_samples
    then c.config.reaches 0 1
    else c.config.reaches c.failures c.count

unfoldable pub issue_probe : CircuitBreaker → CircuitBreaker
issue_probe c = record c { probes_issued = c.probes_issued + 1 }

unfoldable pub allow : ℕ → CircuitBreaker → CircuitBreaker × Bool
unfolding enter_half_open issue_probe
allow now c = elim c.state [
  | closed ↦ (c, true)
  | opened ↦
      if leb (c.opened_at + c.config.open_timeout * 1_000_000) now
      then (issue_probe (enter_half_open c), true)
      else (c, false)
  | half_open ↦
      if ltb c.probes_issued c.config.half_open_probes then (issue_probe c, true) else (c, false)
]

unfoldable pub resolve_probe : CircuitBreaker → CircuitBreaker
unfolding close
resolve_probe c =
    let c' : CircuitBreaker = record c { probe_successes = c.probe_successes + 1 } in
    if leb c.config.half_open_probes c'.probe_successes then close c' else c'

unfoldable pub on_success : CircuitBreaker → CircuitBreaker
unfolding record_result resolve_probe
on_success c = elim c.state [
  | closed ↦ record_result false c
  | half_open ↦ resolve_probe c
  | opened ↦ c
]

unfoldable pub record_failure : ℕ → CircuitBreaker → CircuitBreaker
unfolding record_result ratio_reached trip_open
record_failure now c =
    let c' = record_result true c in if ratio_reached c' then trip_open now c' else c'

unfoldable pub on_failure : ℕ → CircuitBreaker → CircuitBreaker
unfolding record_failure trip_open
on_failure now c = elim c.state [
  | closed ↦ record_failure now c
  | half_open ↦ trip_open now c
  | opened ↦ c
]

-- The calls that a breaker can receive, and the sequences of them.
pub data Call : Type 0 where
  asks : ℕ → Call
  succeeds : Call
  fails : ℕ → Call

unfoldable pub call : CircuitBreaker → Call → CircuitBreaker
unfolding allow on_success on_failure
call c (asks now) = (allow now c).0
call c succeeds = on_success c
call c (fails now) = on_failure now c

unfoldable pub calls : CircuitBreaker → List Call → CircuitBreaker
unfolding call
calls c [] = c
calls c (x ∷ xs) = calls (call c x) xs
