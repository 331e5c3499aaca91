-- ===== src/Ingress/Tests.antt =====
-- Calls of ingress/circuit_breaker.cpp on a concrete breaker.
use nexus_mq.Base.{◌*◌, ◌≤◌, ◌<◌, ◌≡◌, refl, List, [], ◌∷◌, leb, max, length}
use nexus_mq.Ingress.CircuitBreaker.{
  call, allow, on_failure, record_failure, record_result, ratio_reached, trip_open, enter_half_open,
  issue_probe, clear_slots, slot, set_slot, CircuitBreakerConfig, init, allow, Call, asks, succeeds,
  fails, calls,
}
use nexus_mq.Ingress.CircuitBreaker.Window.{count_failures, calls_counted}
use nexus_mq.Ingress.CircuitBreaker.Probes.{admitted_over, calls_probes}

-- A window of three, a ratio of one half, a timeout of 5 ms and two probes.
abbrev settings : CircuitBreakerConfig
settings = record {
  window_size = 3;
  min_samples = 2;
  reaches = λ failures count. leb count (2 * failures);
  open_timeout = 5;
  half_open_probes = 2;
}

abbrev outage : List Call
outage =
    succeeds
    ∷ fails 10
    ∷ fails 20
    ∷ asks 30
    ∷ asks 6_000_000
    ∷ asks 6_000_001
    ∷ asks 6_000_002
    ∷ succeeds
    ∷ []

calls_counted_example :
    ((calls (init settings) outage).failures ≡ count_failures (calls (init settings) outage).window)
    × ((calls (init settings) outage).count ≤ length (calls (init settings) outage).window)
    × ((calls (init settings) outage).head < length (calls (init settings) outage).window)
calls_counted_example = calls_counted settings outage

-- One probe after the timeout, and a second one.
abbrev probing : List Call
probing = fails 10 ∷ fails 20 ∷ asks 30 ∷ asks 6_000_000 ∷ asks 6_000_001 ∷ asks 6_000_002 ∷ []

calls_probes_example : admitted_over 0 (init settings) probing ≤ max 1 2
unfolding calls call allow on_failure record_failure record_result ratio_reached trip_open
    enter_half_open issue_probe init clear_slots slot set_slot
calls_probes_example = calls_probes settings probing refl
