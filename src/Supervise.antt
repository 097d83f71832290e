-- ===== src/Supervise.antt =====
-- crates/core/src/supervise.rs: the delays between the restarts of a supervised task, and what a
-- watcher does when its child has ended. Durations are milliseconds.
pub mod Backoff
pub mod Children
pub mod Examples
use handfast.Base.{ℕ, ◌+◌, ◌-◌, ◌*◌, ◌^◌, min, Option, none, some, leb, if◌then◌else◌}

abbrev pub base_backoff : ℕ
base_backoff = 100

abbrev pub max_backoff : ℕ
max_backoff = 30000

abbrev pub healthy_window : ℕ
healthy_window = 30000

-- `1u32 << shift` does not overflow, as the shift is at most 20, nor does the product.
unfoldable pub backoff_delay : ℕ → ℕ
backoff_delay consecutive_failures =
    min (base_backoff * 2 ^ min (consecutive_failures - 1) 20) max_backoff

-- How a child ends.
pub data Exit : Type 0 where
  finished failed cancelled panicked : Exit

-- `consecutive_failures` after a crash, a 32-bit count that saturates.
unfoldable pub count_failure : ℕ → ℕ → ℕ
count_failure failures elapsed =
    if leb healthy_window elapsed then 0 else min (failures + 1) (2 ^ 32 - 1)

-- One round of `watch_loop` behind the child's end, while there is no shutdown: the count and the
-- delay before the next child, or none when the supervision ends.
unfoldable pub after_exit : Exit → ℕ → ℕ → Option (ℕ × ℕ)
unfolding count_failure backoff_delay
after_exit finished failures elapsed = none
after_exit cancelled failures elapsed = none
after_exit failed failures elapsed =
    some (count_failure failures elapsed, backoff_delay (count_failure failures elapsed))
after_exit panicked failures elapsed =
    some (count_failure failures elapsed, backoff_delay (count_failure failures elapsed))
