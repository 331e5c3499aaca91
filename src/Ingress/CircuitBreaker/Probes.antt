-- ===== src/Ingress/CircuitBreaker/Probes.antt =====
-- How many probes are admitted while the circuit is half open.
use nexus_mq.Base.{ℕ, ◌+◌, ◌≤◌, ◌≡◌, subst, refl, ◌∙◌, List, [], ◌∷◌, max, if◌then◌else◌, arith}
use nexus_mq.Ingress.CircuitBreaker.{
  closed, opened, half_open, CircuitBreakerConfig, CircuitBreaker, init, trip_open, enter_half_open,
  close, record_result, issue_probe, allow, resolve_probe, on_success, record_failure, on_failure,
  Call, asks, succeeds, fails, call, calls,
}

-- The admissions that an observer counts, from the answers alone: those since the circuit was last
-- half open, the one that made it so included.
unfoldable pub admitted : ℕ → CircuitBreaker → Call → ℕ
admitted seen c (asks now) = elim c.state [
  | closed ↦ 0
  | opened ↦ if (allow now c).1 then 1 else 0
  | half_open ↦ if (allow now c).1 then seen + 1 else seen
]
admitted seen c succeeds = seen
admitted seen c (fails now) = seen

unfoldable pub admitted_over : ℕ → CircuitBreaker → List Call → ℕ
admitted_over seen c [] = seen
admitted_over seen c (x ∷ xs) = admitted_over (admitted seen c x) (call c x) xs

-- What is counted in the breaker is what was seen, and within the bound.
abbrev IsCounted : ℕ → CircuitBreaker → Type 0
IsCounted seen c =
    c.state ≡ half_open → (seen ≡ c.probes_issued) × (seen ≤ max 1 c.config.half_open_probes)

call-IsCounted :
    (seen : ℕ) (c : CircuitBreaker) (x : Call)
    → IsCounted seen c
    → ((call c x).config ≡ c.config) × IsCounted (admitted seen c x) (call c x)
unfolding admitted call allow on_success on_failure trip_open enter_half_open issue_probe
    record_failure resolve_probe close record_result
call-IsCounted seen c (asks now) h = ground arith
call-IsCounted seen c succeeds h = ground arith
call-IsCounted seen c (fails now) h = ground arith

calls-IsCounted :
    (xs : List Call) (seen : ℕ) (c : CircuitBreaker)
    → IsCounted seen c
    → ((calls c xs).config ≡ c.config) × IsCounted (admitted_over seen c xs) (calls c xs)
unfolding calls admitted_over
calls-IsCounted [] seen c h = (refl, h)
calls-IsCounted (x ∷ xs) seen c h =
    let (same, counted) = call-IsCounted seen c x h in
    let (later, over) = calls-IsCounted xs (admitted seen c x) (call c x) counted in
    (later ∙ same, over)

-- Whatever calls a new breaker has received: while it is half open, the calls that it has admitted
-- since it became so are at most the probes that its configuration allows, or one where that allows
-- none.
pub calls_probes :
    (config : CircuitBreakerConfig) (xs : List Call)
    → (calls (init config) xs).state ≡ half_open
    → admitted_over 0 (init config) xs ≤ max 1 config.half_open_probes
unfolding init
calls_probes config xs half =
    let (same, counted) = calls-IsCounted xs 0 (init config) (λ h. ground (arith, h)) in
    subst
      (λ (k : CircuitBreakerConfig). admitted_over 0 (init config) xs ≤ max 1 k.half_open_probes)
      same (counted half).1
