-- ===== src/Btrfs/Receive.antt =====
-- src/btrfs.rs, `Btrfs::receive`: a stream goes into `btrfs receive` as it is. Nothing in the crate
-- calls it; the update goes through `receive_btrfs_stream` of src/core.rs. Of a `Pipeline`, what is
-- about xz does not count, and `input_join` is the task that feeds btrfs.
use embuer.Base.{List, [], ◌∷◌, ◌++◌, Option, none, some, Result, ok, err, if◌then◌else◌}
use embuer.Text.{Text, text, strip_prefix}
use embuer.Error.{ServiceError, io_os, io_other}
use embuer.Host.{Host, ExitStatus, Pipeline, Env, run_pipeline}
use embuer.Stream.{Reader, copy}

-- The name in the first line "At subvol NAME": the reader stops there.
unfoldable pub first_name : List Text → Option Text
first_name [] = none
first_name (line ∷ rest) = elim (strip_prefix (text "At subvol ") line) [
  | some name ↦ some name
  | none ↦ first_name rest
]

unfoldable pub status_checked : ExitStatus → Option Text → Result ServiceError (Option Text)
status_checked status name =
    if status.success
    then ok name
    else err (io_other (text "btrfs receive failed with status: " ++ status.shown))

-- After the tasks and the process have been joined.
unfoldable pub joined : Pipeline → Result ServiceError (Option Text)
unfolding first_name status_checked
joined p = elim p.input_join [
  | some e ↦ err (io_other (text "joining to stream to btrfs receive failed"))
  | none ↦ elim p.btrfs_wait [
    | err e ↦ err (io_other (text "joining of btrfs receive failed"))
    | ok status ↦ elim p.stderr_join [
      | some e ↦ err (io_other (text "reading stderr from btrfs receive failed"))
      | none ↦ status_checked status (first_name p.stderr_lines)
    ]
  ]
]

unfoldable pub started : Pipeline → Result ServiceError (Option Text)
unfolding joined
started p = elim p.btrfs_spawn [
  | some e ↦ err (io_os e)
  | none ↦
      if p.btrfs_stdin
      then if p.btrfs_stderr
        then joined p
        else err (io_other (text "Failed to open stderr for btrfs receive"))
      else err (io_other (text "Failed to open stdin for btrfs receive"))
]

unfoldable pub receive_command : Text → Text
receive_command path = text "btrfs receive " ++ path ++ text " -e 1>&2"

unfoldable pub receive :
    (H : Host) {S : Type 0}
    → Text
    → Reader S
    → S
    → Env H
    → Result ServiceError (Option Text) × S × Env H
unfolding started receive_command
receive H path poll_read input_stream e =
    let (bytes, s) = copy poll_read (H.reads e.host) input_stream in
    let (p, e') = run_pipeline H (receive_command path) bytes e in (started p, s, e')
