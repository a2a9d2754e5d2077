-- ===== src/Service/Stop.antt =====
-- src/service.rs, `terminate_update_check`, with the two tasks that it waits for. Each step of the
-- method, of a task and of the senders is a step of the relation, in any order. A panic of the loop
-- is no step.
pub mod Waits
use embuer.Base.{ℕ, suc, Bool, true, false, ◌≡◌}

-- Where `terminate_update_check` is: not called, waiting for the checker, waiting for the loop, or
-- returned. It borrows the service until it returns.
pub data Phase : Type 0 where
  before at_checker at_loop returned : Phase

-- `periodic_url_checker`: in its `select!`, in a send, or not running.
pub data Checker : Type 0 where
  waiting sending gone : Checker

-- `notify_waiters` wakes those that wait for the signal now. It leaves no permit for later.
unfoldable pub notify_waiters : Checker → Checker
notify_waiters waiting = gone
notify_waiters sending = sending
notify_waiters gone = gone

pub record Tasks : Type 0 where
  pub phase : Phase
  pub checker : Checker
  -- the service with its `update_tx`
  pub service_lives : Bool
  -- the other senders, by `update_sender`
  pub senders : ℕ
  -- `update_request_loop`
  pub loop_runs : Bool

pub data Step (t : Tasks) : Tasks → Type 0 where
  -- The signal. `drop(self.update_tx.clone())` makes a sender and drops it.
  signals :
      t.phase ≡ before
      → t.service_lives ≡ true
      → Step t (record t { phase = at_checker; checker = notify_waiters t.checker })
  checker_joined : t.phase ≡ at_checker → t.checker ≡ gone → Step t (record t { phase = at_loop })
  loop_joined : t.phase ≡ at_loop → t.loop_runs ≡ false → Step t (record t { phase = returned })
  checker_sends : t.checker ≡ waiting → Step t (record t { checker = sending })
  checker_waits : t.checker ≡ sending → Step t (record t { checker = waiting })
  sender_cloned : Step t (record t { senders = suc t.senders })
  sender_dropped : (n : ℕ) → t.senders ≡ suc n → Step t (record t { senders = n })
  -- Not while the method borrows the service.
  service_dropped : t.phase ≡ before → Step t (record t { service_lives = false })
  service_dropped_late : t.phase ≡ returned → Step t (record t { service_lives = false })
  -- `recv` gives `None` when there is no sender any more.
  loop_ends :
      t.service_lives ≡ false
      → t.senders ≡ 0
      → t.checker ≡ gone
      → Step t (record t { loop_runs = false })

pub data Steps (t : Tasks) : Tasks → Type 0 where
  at_once : Steps t t
  then : (u v : Tasks) → Steps t u → Step u v → Steps t v

-- `Service::new`, with its tasks spawned; the checker only with an `update_url`.
abbrev pub started : Checker → Tasks
started checker = record {
  phase = before;
  checker = checker;
  service_lives = true;
  senders = 0;
  loop_runs = true;
}
