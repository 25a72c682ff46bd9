-- ===== src/Transport/Sse/Loop/Delays.antt =====
-- The delays of packages/core/src/policies.ts with which packages/transport/src/sse.ts reconnects.
use native.Mathlib.Nat.{pow-suc}
use open_claw_bot.Common.{
  ℕ, zero, suc, ◌+◌, ◌*◌, ◌-◌, ◌^◌, ◌≤◌, ◌≡◌, refl, sym, ◌∙◌, min, nat_eq, arith,
}
use open_claw_bot.Transport.Sse.Loop.{policy_delay, reconnect_backoff}

-- A delay that doubles from one second to ten.
abbrev pub doubling : ℕ → ℕ
doubling zero = 1000
doubling (suc n) = min (2 * doubling n) 10000

doubling_bound : (n : ℕ) → (1000 ≤ doubling n) × (doubling n ≤ 10000)
doubling_bound zero = (omega arith, omega arith)
doubling_bound (suc n) = let h = doubling_bound n in (omega arith, omega arith)

doubling_late : (n : ℕ) → doubling (suc (suc (suc (suc n)))) ≡ 10000
doubling_late n = let h = doubling_bound n in omega arith

power_late : (k : ℕ) → 16 ≤ 2 ^ (k + 4)
power_late zero = omega arith
power_late (suc k) =
    let h = power_late k in
    let same : suc k + 4 ≡ suc (k + 4) = omega arith in rw same (omega (arith, pow-suc 2 (k + 4)))

-- Behind the fourth attempt the exponent does not matter.
retry_late : (n m : ℕ) → m ≡ n + 4 → min (1000 * 2 ^ m) 10000 ≡ 10000
retry_late n m same = let h = power_late n in rw same (omega arith)

pub reconnect_backoff-doubling : (n : ℕ) → reconnect_backoff (n + 1) ≡ doubling n
unfolding reconnect_backoff policy_delay
reconnect_backoff-doubling zero = refl
reconnect_backoff-doubling (suc zero) = refl
reconnect_backoff-doubling (suc (suc zero)) = refl
reconnect_backoff-doubling (suc (suc (suc zero))) = refl
reconnect_backoff-doubling (suc (suc (suc (suc n)))) =
    retry_late (min n 27) (min (suc (suc (suc (suc n))) + 1) 32 - 1) (omega arith)
    ∙ sym (doubling_late n)
