-- ===== src/Stream/Progress.antt =====
-- src/progress_stream.rs: a reader that reports how much it has passed on. A report is a task
-- that sets the status when the scheduler runs it: the tasks are kept in the order of their start.
-- `f64` is a parameter, and so is the clock, the milliseconds at each poll.
pub mod Laws
pub mod Reports
pub mod Bounded
use embuer.Base.{
  ℕ, suc, ◌+◌, ◌-◌, ◌%◌, ◌^◌, List, [], ◌∷◌, ◌++◌, Bool, Option, none, some, ◌==◌, ltb, ◌||◌,
  if◌then◌else◌, length,
}
use embuer.Text.{Text}
use embuer.Status.{UpdateStatus, installing, Progress, unknown, percent}
use embuer.Stream.{Poll, ready, failed, pending, Reader}

-- `f64`: `as f64`, `/`, `*`, the constant 100.0 and `as i32`
pub record Float : Type 1 where
  pub F : Type 0
  pub of_u64 : ℕ → F
  pub div : F → F → F
  pub mul : F → F → F
  pub hundred : F
  pub to_i32 : F → ℕ

pub record ProgressReader (S : Type 0) : Type 0 where
  pub inner : S
  pub bytes_read : ℕ
  pub total_size : Option ℕ
  pub source : Text
  pub last_update : ℕ
  -- the polls so far, which index the clock
  pub polls : ℕ
  -- the status updates that were spawned
  pub spawned : List UpdateStatus

unfoldable pub new : {S : Type 0} → ℕ → S → Option ℕ → Text → ProgressReader S
new now inner total_size source = record {
  inner = inner;
  bytes_read = 0;
  total_size = total_size;
  source = source;
  last_update = now;
  polls = 0;
  spawned = [];
}

-- More than 100 ms since the last report.
unfoldable pub should_update : {S : Type 0} → ℕ → ProgressReader S → Bool
should_update now r = ltb 100 (now - r.last_update)

unfoldable pub ratio : Float → ℕ → ℕ → Progress
ratio F bytes size =
    if ltb 0 size
    then percent (F.to_i32 (F.mul (F.div (F.of_u64 bytes) (F.of_u64 size)) F.hundred))
    else unknown

module _ (F : Float) {S : Type 0} where
  unfoldable pub calculate_progress : ProgressReader S → Progress
  unfolding ratio
  calculate_progress r = elim r.total_size [
    | none ↦ unknown
    | some size ↦ ratio F r.bytes_read size
  ]

  unfoldable pub report : ℕ → ProgressReader S → ProgressReader S
  unfolding calculate_progress
  report now r = record r {
    last_update = now;
    spawned = r.spawned ++ installing r.source (calculate_progress r) ∷ [];
  }

  -- After a successful read of so many bytes.
  unfoldable pub advance : ℕ → ℕ → ProgressReader S → ProgressReader S
  unfolding report should_update
  advance now increment r =
      let r' : ProgressReader S = record r { bytes_read = (r.bytes_read + increment) % 2 ^ 64 } in
      if r.bytes_read == 0 || should_update now r then report now r' else r'

  unfoldable pub observe : Poll → ℕ → ProgressReader S → ProgressReader S
  unfolding advance
  observe (ready bytes) now r = advance now (length bytes) r
  observe (failed e) now r = r
  observe pending now r = r

  unfoldable pub poll_read : (ℕ → ℕ) → Reader S → Reader (ProgressReader S)
  unfolding observe
  poll_read clock inner_poll r =
      let (p, s) = inner_poll r.inner in
      (p, observe p (clock (suc r.polls)) (record r { inner = s; polls = suc r.polls }))
