-- ===== src/Host.antt =====
-- What the program runs on and does not implement: the `btrfs` program, scripts, the file system
-- and the pipeline `xz -d | btrfs receive`. A `Host` gives an answer to each call; nothing is
-- assumed of the answers. An `Env` is the host's state with a trace of what the program ran.
pub mod Trace
pub mod Yields
pub mod Inversion
use embuer.Base.{
  if◌then◌else◌, ℕ, Bool, Option, none, List, [], ◌∷◌, ◌++◌, true, false, Result, ok, err, map_err,
}
use embuer.Text.{Text}
use embuer.Error.{ServiceError, io_os}

-- `std::process::Output`, its streams after `from_utf8_lossy`.
pub record Output : Type 0 where
  pub success : Bool
  pub stdout : Text
  pub stderr : Text

-- `ExitStatus`, with the text that it displays.
pub record ExitStatus : Type 0 where
  pub success : Bool
  pub shown : Text

-- `std::fs::DirEntry`
pub record DirEntry : Type 0 where
  pub path : Text
  pub file_name : Text

-- How the processes and tasks that `receive_btrfs_stream` starts come to their ends. An error is
-- the text that it displays; a `Bool` says whether a pipe end could be taken.
pub record Pipeline : Type 0 where
  pub xz_spawn : Option Text
  pub xz_stdin : Bool
  pub xz_stdout : Bool
  pub btrfs_spawn : Option Text
  pub btrfs_stdin : Bool
  pub btrfs_stderr : Bool
  -- the join error of the task that feeds xz
  pub input_join : Option Text
  pub xz_wait : Result Text ExitStatus
  -- the join errors of the task that waits for btrfs, and of the one that reads its stderr
  pub btrfs_join : Option Text
  pub stderr_join : Option Text
  pub stderr_lines : List Text
  pub btrfs_wait : Result Text ExitStatus

-- A `Command` of the programs in src/bin: its program, directory and arguments.
pub record Invocation : Type 0 where
  pub program : Text
  pub current_dir : Option Text
  pub args : List Text

-- `std::fs::create_dir_all`, `remove_dir_all`, `remove_file`, `copy` and `write`
pub data FileAction : Type 0 where
  create_dir_all remove_dir_all remove_file : Text → FileAction
  copy write : Text → Text → FileAction

pub record Host : Type 1 where
  pub State : Type 0
  -- `Command::new("btrfs").args(args).output()`
  pub btrfs : List Text → State → Result Text Output × State
  -- `Command::new(script).args(args).status()`
  pub script : Text → List Text → State → Result Text ExitStatus × State
  -- `xz -d | bash -c command`: the number of reads after which the input side stops, and the end
  -- of the pipeline that was fed these bytes.
  pub reads : State → ℕ
  pub pipeline : Text → List ℕ → State → Pipeline × State
  -- any other command, by `output()`, or by `status()`, which keeps only the status
  pub command : Invocation → State → Result Text Output × State
  pub files : FileAction → State → Result Text (Unit {0}) × State
  -- `std::io::stdin().read_line`
  pub read_line : State → Result Text Text × State
  -- `{:?}` of a path
  pub debug : Text → Text
  pub exists : State → Text → Bool
  pub is_file : State → Text → Bool
  pub is_dir : State → Text → Bool
  -- the permission bits, the magic of the file system, the inode number
  pub mode : State → Text → Result Text ℕ
  pub statfs : State → Text → Result Text ℕ
  pub inode : State → Text → Result Text ℕ
  pub read_to_string : State → Text → Result Text Text
  pub read_dir : State → Text → Result Text (List (Result Text DirEntry))

-- What the program ran.
pub data Event : Type 0 where
  -- `btrfs` with these arguments
  btrfs : List Text → Event
  -- a script of a deployment, with its arguments
  script : Text → List Text → Event
  -- the receiving pipeline, by its command line
  receive : Text → Event
  -- another command
  ran : Invocation → Event
  changed : FileAction → Event

pub record Env (H : Host) : Type 0 where
  pub host : H.State
  pub trace : List Event

-- An early end of an action: an error that the caller can match on, or a panic.
pub data Failure : Type 0 where
  error : ServiceError → Failure
  panic : Failure
  -- a second panic while the first one unwinds, which ends the program at once
  abort : Failure

-- An action that may fail. What it did before it failed stays done.
abbrev pub M : Host → Type 0 → Type 0
M H A = Env H → Result Failure A × Env H

-- An error of the system, by `?`
abbrev pub os : Text → Failure
os e = error (io_os e)

-- The actions are shut: proofs go by the rules of Trace, or open all of them with `◌>>=◌`.
module _ {H : Host} {A : Type 0} where
  unfoldable pub pure : A → M H A
  pure a e = (ok a, e)

  unfoldable pub throw : ServiceError → M H A
  throw x e = (err (error x), e)

  unfoldable pub panics : M H A
  panics e = (err panic, e)

  unfoldable pub lift : Result ServiceError A → M H A
  lift r e = (map_err error r, e)

  -- A question to the host, which changes nothing and may fail.
  unfoldable pub asks : (H.State → Result Failure A) → M H A
  asks f e = (f e.host, e)

  -- `if b { m } else { n }`, for a test on the host
  unfoldable pub branch : (H.State → Bool) → M H A → M H A → M H A
  branch b m n e = if b e.host then m e else n e

-- `if !b { return Err(x); }`
unfoldable pub ensure : {H : Host} → Bool → ServiceError → M H (Unit {0})
ensure true x e = (ok tt, e)
ensure false x e = (err (error x), e)

module _ {H : Host} {A B : Type 0} where
  abbrev pub continue : (A → M H B) → Result Failure A × Env H → Result Failure B × Env H
  continue f (ok a, e) = f a e
  continue f (err x, e) = (err x, e)

  abbrev pub handle_end :
      (A → M H B) → (ServiceError → M H B) → Result Failure A × Env H → Result Failure B × Env H
  handle_end f g (ok a, e) = f a e
  handle_end f g (err (error x), e) = g x e
  handle_end f g (err panic, e) = (err panic, e)
  handle_end f g (err abort, e) = (err abort, e)

  -- `match m { Ok(a) => f(a), Err(x) => g(x) }`
  unfoldable pub handle : M H A → (A → M H B) → (ServiceError → M H B) → M H B
  handle m f g e = handle_end f g (m e)

  infixl 5 ◌>>=◌ ◌>>◌
  -- `?`
  unfoldable pub ◌>>=◌ : M H A → (A → M H B) → M H B
  unfolding pure throw panics lift asks branch ensure handle
  ◌>>=◌ m f e = continue f (m e)

  abbrev pub ◌>>◌ : M H A → M H B → M H B
  m >> n = m >>= λ _. n

module _ (H : Host) where
  -- Runs `btrfs` and notes it in the trace.
  unfoldable pub run_btrfs : List Text → M H Output
  run_btrfs args e =
      let (r, s) = H.btrfs args e.host in
      (map_err os r, record { host = s; trace = e.trace ++ btrfs args ∷ [] })

  -- Runs a script and waits for it: an error when it cannot be started is passed on.
  unfoldable pub run_script : (Text → ServiceError) → Text → List Text → M H ExitStatus
  run_script failed path args e =
      let (r, s) = H.script path args e.host in
      (
        map_err (λ x. error (failed x)) r,
        record { host = s; trace = e.trace ++ script path args ∷ [] },
      )

  unfoldable pub run_pipeline : Text → List ℕ → Env H → Pipeline × Env H
  run_pipeline command bytes e =
      let (p, s) = H.pipeline command bytes e.host in
      (p, record { host = s; trace = e.trace ++ receive command ∷ [] })

  -- Runs a command and waits for it. `failed` makes the error when it cannot be started.
  unfoldable pub run_command : (Text → ServiceError) → Invocation → M H Output
  run_command failed c e =
      let (r, s) = H.command c e.host in
      (map_err (λ x. error (failed x)) r, record { host = s; trace = e.trace ++ ran c ∷ [] })

  -- The same, in the directory of the program.
  unfoldable pub run_program : (Text → ServiceError) → Text → List Text → M H Output
  run_program failed program args =
      run_command failed (record { program = program; current_dir = none; args = args })

  unfoldable pub change : FileAction → M H (Unit {0})
  change a e =
      let (r, s) = H.files a e.host in
      (map_err os r, record { host = s; trace = e.trace ++ changed a ∷ [] })

  unfoldable pub read_input : M H Text
  read_input e =
      let (r, s) = H.read_line e.host in (map_err os r, record { host = s; trace = e.trace })
