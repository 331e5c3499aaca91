-- ===== src/Reactor/SpscQueue/Counters.antt =====
-- The counters of the ring wrap around, and still tell how many values there are and where they lie.
use nexus_mq.Base.{
  ℕ, zero, suc, ◌+◌, ◌*◌, ◌-◌, ◌/◌, ◌%◌, ◌^◌, ◌≤◌, ◌<◌, ◌≡◌, ◌≢◌, sym, ap, ◌∙◌, arith, inl, inr,
  Bool-cases, ltb, false,
}
use Prim.Native.Nat.{◌∣◌}
use native.Mathlib.Nat.{
  pow-suc, pow-le-pow_right, mod-mod_of_dvd, mod-add-div, mul-le-mul_left, mul-suc,
}
use nexus_mq.Reactor.SpscQueue.{add_size, sub_size, cell}

pow_multiple : (k d : ℕ) → (x : ℕ) × (2 ^ (d + k) ≡ 2 ^ k * x)
pow_multiple k zero = let e : 0 + k ≡ k = omega arith in (1, ap (λ n. 2 ^ n) e ∙ omega arith)
pow_multiple k (suc d) =
    let (x, e) = pow_multiple k d in
    let same : suc d + k ≡ suc (d + k) = omega arith in
    (x * 2, ap (λ n. 2 ^ n) same ∙ pow-suc 2 (d + k) ∙ grind (arith, e))

pow-dvd : (k : ℕ) → k < 64 → 2 ^ k ∣ 2 ^ 64
pow-dvd k h =
    let (x, e) = pow_multiple k (64 - k) in
    let same : 64 - k + k ≡ 64 = omega arith in ∣ (x, ap (λ n. 2 ^ n) (sym same) ∙ e) ∣₁

capacity-le : (k : ℕ) → k < 64 → 2 ^ k ≤ 2 ^ 63
capacity-le k h = pow-le-pow_right {n = 2} (omega arith) {j = 63} (omega arith)

-- The wrapped counters differ by the true number of values.
pub sub_size-mod :
    (k first last : ℕ)
    → k < 64
    → first ≤ last
    → last ≤ first + 2 ^ k
    → sub_size (last % 2 ^ 64) (first % 2 ^ 64) ≡ last - first
sub_size-mod k first last h lo hi = omega (arith, capacity-le k h)

-- They are the same exactly if there is none.
pub mod-same :
    (k first last : ℕ)
    → k < 64
    → first ≤ last
    → last ≤ first + 2 ^ k
    → first % 2 ^ 64 ≡ last % 2 ^ 64
    → first ≡ last
mod-same k first last h lo hi e = omega (arith, capacity-le k h)

pub add_size-mod : (n : ℕ) → add_size (n % 2 ^ 64) 1 ≡ (n + 1) % 2 ^ 64
add_size-mod n = omega arith

-- The place of a wrapped counter is the place of the counter.
pub cell-mod : (k n : ℕ) → k < 64 → cell k (n % 2 ^ 64) ≡ cell k n
cell-mod k n h = mod-mod_of_dvd (2 ^ k) n (pow-dvd k h)

lt_suc : (a b : ℕ) → a < b → suc a ≤ b
lt_suc a b h = omega arith

le_not : (a b : ℕ) → ltb a b ≡ false → b ≤ a
le_not a b h = ground arith

no_multiple : (c a b d : ℕ) → c * b ≡ c * a + d → 0 < d → d < c → ⊥
no_multiple c a b d e lo hi = elim (Bool-cases (ltb a b)) [
  | inl below ↦ omega (arith, mul-le-mul_left c (lt_suc a b (ground (arith, below))), mul-suc c a)
  | inr above ↦ omega (arith, mul-le-mul_left c (le_not a b above))
]

-- Two places within one round are different.
pub cell-distinct :
    (k first last : ℕ) → first < last → last < first + 2 ^ k → cell k first ≢ cell k last
cell-distinct k first last lo hi e =
    let c : ℕ = 2 ^ k in
    no_multiple c (first / c) (last / c) (last - first)
      (omega (arith, e, mod-add-div first c, mod-add-div last c)) (omega arith) (omega arith)
