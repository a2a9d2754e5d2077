-- ===== src/Service/Stop/Waits.antt =====
-- src/service.rs: `terminate_update_check` waits for a loop that waits for its sender.
use embuer.Base.{true, false, ◌≡◌, ◌≢◌, refl, Bool-cases, inl, inr}
use embuer.Service.Stop.{
  before, returned, Checker, Tasks, Step, signals, checker_joined, loop_joined, checker_sends,
  checker_waits, sender_cloned, sender_dropped, service_dropped, service_dropped_late, loop_ends,
  Steps, at_once, then, started,
}

-- The method has not returned, it runs only on a service that lives, and the loop of a service that
-- lives runs.
record Waiting (t : Tasks) : Type 0 where
  not_returned : t.phase ≢ returned
  borrows : t.service_lives ≡ false → t.phase ≡ before
  runs : t.service_lives ≡ true → t.loop_runs ≡ true

Step-Waiting : (t u : Tasks) → Waiting t → Step t u → Waiting u
Step-Waiting t _ w (signals p l) = record {
  not_returned = λ h. cc;
  borrows = λ h. cc (l, h);
  runs = w.runs;
}
Step-Waiting t _ w (checker_joined p g) = record {
  not_returned = λ h. cc;
  borrows = λ h. let q = w.borrows h in cc;
  runs = w.runs;
}
Step-Waiting t _ w (loop_joined p e) = absurd (elim (Bool-cases t.service_lives) [
  | inl l ↦ let r = w.runs l in cc
  | inr d ↦ let b = w.borrows d in cc
])
Step-Waiting t _ w (checker_sends p) = record {
  not_returned = w.not_returned;
  borrows = w.borrows;
  runs = w.runs;
}
Step-Waiting t _ w (checker_waits p) = record {
  not_returned = w.not_returned;
  borrows = w.borrows;
  runs = w.runs;
}
Step-Waiting t _ w sender_cloned = record {
  not_returned = w.not_returned;
  borrows = w.borrows;
  runs = w.runs;
}
Step-Waiting t _ w (sender_dropped n p) = record {
  not_returned = w.not_returned;
  borrows = w.borrows;
  runs = w.runs;
}
Step-Waiting t _ w (service_dropped p) = record {
  not_returned = w.not_returned;
  borrows = λ h. p;
  runs = λ h. cc;
}
Step-Waiting t _ w (service_dropped_late p) = absurd (w.not_returned p)
Step-Waiting t _ w (loop_ends d n g) = record {
  not_returned = w.not_returned;
  borrows = w.borrows;
  runs = λ h. cc;
}

-- `terminate_update_check` never returns, whatever the tasks and the other senders do: it waits for
-- a loop that ends, unless it panics, when there is no sender, and the service that it borrows holds
-- one.
pub Steps-ne-returned : (c : Checker) (t : Tasks) → Steps (started c) t → t.phase ≢ returned
Steps-ne-returned c t steps = (go t steps).not_returned
  where
    go : (t : Tasks) → Steps (started c) t → Waiting t
    go _ at_once = record { not_returned = λ h. cc; borrows = λ h. cc; runs = λ h. refl }
    go v (then u _ before_it step) = Step-Waiting u v (go u before_it) step
