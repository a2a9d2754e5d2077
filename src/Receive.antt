-- ===== src/Receive.antt =====
-- src/core.rs, `receive_btrfs_stream`: the update goes through `xz -d` into `btrfs receive`. The
-- processes and the join results are the host's; what the function makes of them is here.
pub mod Laws
use embuer.Base.{
  List, [], ◌∷◌, ◌++◌, Bool, true, false, Option, none, some, Result, ok, err, if◌then◌else◌,
}
use embuer.Text.{Text, text, strip_prefix}
use embuer.Error.{ServiceError, io_os, io_other}
use embuer.Host.{Host, ExitStatus, Pipeline, Env, run_pipeline}
use embuer.Stream.{Reader, copy}

-- The name in the last line "At subvol NAME" of btrfs' output.
unfoldable pub subvol_name : Option Text → List Text → Option Text
subvol_name found [] = found
subvol_name found (line ∷ rest) =
    subvol_name
      (elim (strip_prefix (text "At subvol ") line) [ none ↦ found | some name ↦ some name ]) rest

btrfs_status : Pipeline → ExitStatus → Result ServiceError (Option Text)
btrfs_status p status =
    if status.success
    then ok (subvol_name none p.stderr_lines)
    else err (io_other (text "btrfs receive failed with status: " ++ status.shown))

-- What the task that waits for `btrfs receive` returns.
unfoldable pub btrfs_task : Pipeline → Result ServiceError (Option Text)
unfolding btrfs_status
btrfs_task p = elim p.stderr_join [
  | some e ↦ err (io_other (text "reading stderr from btrfs receive failed: " ++ e))
  | none ↦ elim p.btrfs_wait [
    | err e ↦ err (io_other (text "btrfs receive wait failed: " ++ e))
    | ok status ↦ btrfs_status p status
  ]
]

-- An xz that failed counts only if btrfs did not fail: then xz was cut off.
xz_end : ExitStatus → Result ServiceError (Option Text) → Result ServiceError (Option Text)
xz_end status (err e) = err e
xz_end status (ok name) =
    if status.success
    then ok name
    else err (io_other (text "xz decompressor failed with status: " ++ status.shown))

-- After the three tasks have been joined.
unfoldable pub joined : Pipeline → Result ServiceError (Option Text)
unfolding btrfs_task xz_end
joined p = elim p.input_join [
  | some e ↦ err (io_other (text "joining stream to xz failed"))
  | none ↦ elim p.xz_wait [
    | err e ↦ err (io_other (text "joining stream to xz failed"))
    | ok status ↦ elim p.btrfs_join [
      | some e ↦ err (io_other (text "joining of btrfs receive failed"))
      | none ↦ xz_end status (btrfs_task p)
    ]
  ]
]

unfoldable pub started : Pipeline → Result ServiceError (Option Text)
unfolding joined
started p = elim p.xz_spawn [
  | some e ↦ err (io_os e)
  | none ↦
      if p.xz_stdin
      then if p.xz_stdout
        then elim p.btrfs_spawn [
          | some e ↦ err (io_os e)
          | none ↦
              if p.btrfs_stdin
              then if p.btrfs_stderr
                then joined p
                else err (io_other (text "Failed to open stderr for btrfs receive"))
              else err (io_other (text "Failed to open stdin for btrfs receive"))
        ]
        else err (io_other (text "Failed to open stdout for xz"))
      else err (io_other (text "Failed to open stdin for xz"))
]

unfoldable pub command : Text → Text
command deployments_dir = text "btrfs receive " ++ deployments_dir ++ text " -e 1>&2"

-- The result with the reader as the pipeline has left it.
unfoldable pub receive_btrfs_stream :
    (H : Host) {S : Type 0}
    → Reader S
    → Text
    → S
    → Env H
    → Result ServiceError (Option Text) × S × Env H
unfolding started command copy run_pipeline
receive_btrfs_stream H poll_read deployments_dir input_stream e =
    let (bytes, s) = copy poll_read (H.reads e.host) input_stream in
    let (p, e') = run_pipeline H (command deployments_dir) bytes e in (started p, s, e')
