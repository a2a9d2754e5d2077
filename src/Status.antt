-- ===== src/Status.antt =====
-- src/status.rs: `UpdateStatus`, and what D-Bus shows of it.
use embuer.Base.{ℕ, [], ◌++◌}
use embuer.Text.{Text, text}

-- An `i32` progress; `unknown` is -1.
pub data Progress : Type 0 where
  unknown : Progress
  percent : ℕ → Progress

pub data UpdateStatus : Type 0 where
  idle checking clearing : UpdateStatus
  installing : Text → Progress → UpdateStatus
  -- version, source
  awaiting_confirmation : Text → Text → UpdateStatus
  -- source, deployment
  completed : Text → Text → UpdateStatus
  -- source, error
  failed : Text → Text → UpdateStatus

unfoldable pub as_str : UpdateStatus → Text
as_str idle = text "Idle"
as_str checking = text "Checking"
as_str clearing = text "Clearing"
as_str (installing source p) = text "Installing"
as_str (awaiting_confirmation version source) = text "AwaitingConfirmation"
as_str (completed source deployment) = text "Completed"
as_str (failed source error) = text "Failed"

unfoldable pub details : UpdateStatus → Text
details idle = []
details checking = []
details clearing = []
details (installing source p) = source
details (awaiting_confirmation version source) = version ++ text " (" ++ source ++ text ")"
details (completed source deployment) = source ++ text " installed as " ++ deployment
details (failed source error) = source ++ text ": " ++ error

unfoldable pub progress : UpdateStatus → Progress
progress (installing source p) = p
progress _ = unknown
