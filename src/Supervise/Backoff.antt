-- ===== src/Supervise/Backoff.antt =====
-- The sequence of delays of a task that keeps crashing.
use handfast.Base.{ℕ, suc, ◌-◌, ◌*◌, ◌^◌, ◌<◌, min, some, ◌≡◌, refl, arith}
use native.Mathlib.Decide.{dec_lt}
use handfast.Supervise.{
  backoff_delay, max_backoff, healthy_window, count_failure, after_exit, failed,
}

doubling : (p q : ℕ) → q ≡ 2 * p → min (100 * q) 30000 ≡ min (2 * min (100 * p) 30000) 30000
doubling p q h = omega arith

power : (k : ℕ) → 2 ^ suc k ≡ 2 * 2 ^ k
power k = omega arith

-- One failure more doubles the delay, up to the cap.
delay-double : (k : ℕ) → backoff_delay (suc (suc k)) ≡ min (2 * backoff_delay (suc k)) max_backoff
unfolding backoff_delay
delay-double k = elim (dec_lt k 20) [
  | yes h ↦
      let a : min (suc (suc k) - 1) 20 ≡ suc k = omega arith in
      let b : min (suc k - 1) 20 ≡ k = omega arith in
      rw (a, b, backoff_delay) (doubling (2 ^ k) (2 ^ suc k) (power k))
  | no n ↦
      let a : min (suc (suc k) - 1) 20 ≡ 20 = omega arith in
      let b : min (suc k - 1) 20 ≡ 20 = omega arith in rw (a, b, backoff_delay) refl
]

count_failure-suc :
    (failures elapsed : ℕ)
    → elapsed < healthy_window
    → failures < 2 ^ 32 - 1
    → count_failure failures elapsed ≡ suc failures
unfolding count_failure
count_failure-suc failures elapsed h f = ground arith

-- After the first crash the delay is 100 ms, and each crash of a child that lived for less than the
-- healthy window doubles the last delay, up to 30 s.
pub after_exit-doubles :
    (failures elapsed : ℕ)
    → elapsed < healthy_window
    → failures < 2 ^ 32 - 2
    → after_exit failed (suc failures) elapsed
      ≡ some (suc (suc failures), min (2 * backoff_delay (suc failures)) max_backoff)
unfolding after_exit
after_exit-doubles failures elapsed h f =
    rw (count_failure-suc (suc failures) elapsed h (omega arith), delay-double failures) refl
