-- ===== src/Dbus/Monitor.antt =====
-- src/dbus.rs, `start_status_monitor`: a task that polls the status and signals its changes.
pub mod Changes
use embuer.Base.{ℕ, List, [], ◌∷◌, Bool, true, false, ◌==◌, ◌||◌, ◌&&◌, not, if◌then◌else◌}
use embuer.Text.{text_eq}
use embuer.Status.{UpdateStatus, Progress, unknown, percent, idle, as_str, details, progress}
use embuer.Dbus.{Shown, shown}

unfoldable pub progress_eq : Progress → Progress → Bool
progress_eq unknown unknown = true
progress_eq (percent m) (percent n) = m == n
progress_eq _ _ = false

unfoldable pub should_emit : UpdateStatus → UpdateStatus → Progress → Bool
unfolding progress_eq
should_emit current_status last_status last_progress =
    not (text_eq (as_str current_status) (as_str last_status))
    || not (text_eq (details current_status) (details last_status))
    || not (progress_eq (progress current_status) last_progress)

-- The signals, as the polls read one status after the other.
unfoldable pub monitor : UpdateStatus → Progress → List UpdateStatus → List Shown
monitor last_status last_progress [] = []
monitor last_status last_progress (current_status ∷ rest) =
    let changed = monitor current_status (progress current_status) rest in
    let unchanged = monitor last_status last_progress rest in
    if should_emit current_status last_status last_progress
    then shown current_status ∷ changed
    else unchanged

unfoldable pub start_status_monitor : List UpdateStatus → List Shown
unfolding monitor
start_status_monitor statuses = monitor idle unknown statuses
