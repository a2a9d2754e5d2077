-- ===== src/Btrfs/Query.antt =====
-- src/btrfs.rs: the questions whose answers are parsed, `btrfs_subvol_get_id`,
-- `subvolume_get_default`, `subvolume_list` and `list_deployment_subvolumes`.
use embuer.Base.{
  ℕ, List, [], ◌∷◌, ◌++◌, Bool, false, Option, none, some, Result, ok, err, map_err, if◌then◌else◌,
  not,
}
use embuer.Text.{Text, text, trim, trim_start, strip_prefix, lines, split_whitespace}
use embuer.Text.Number.{ParseIntError, empty, invalid_digit, pos_overflow, parse_u64}
use embuer.Error.{ServiceError, btrfs_error, io_os}
use embuer.Host.{os, Host, DirEntry, M, pure, throw, lift, ensure, ◌>>=◌, ◌>>◌, asks, branch}
use embuer.Btrfs.{run_and_get_stdout, is_btrfs_subvolume}

-- The text of a `ParseIntError`.
unfoldable pub describe : ParseIntError → Text
describe empty = text "cannot parse integer from empty string"
describe invalid_digit = text "invalid digit found in string"
describe pos_overflow = text "number too large to fit in target type"

parse_failed : Text → ParseIntError → ServiceError
unfolding describe
parse_failed id_part e =
    btrfs_error
      (text "Failed to parse subvolume ID from '" ++ trim id_part ++ text "': " ++ describe e)

-- The loop of `btrfs_subvol_get_id`: the first line "Subvolume ID:" decides.
unfoldable pub find_id : ServiceError → List Text → Result ServiceError ℕ
unfolding parse_failed
find_id missing [] = err missing
find_id missing (line ∷ rest) = elim (strip_prefix (text "Subvolume ID:") (trim_start line)) [
  | none ↦ find_id missing rest
  | some id_part ↦ map_err (parse_failed id_part) (parse_u64 (trim id_part))
]

-- The loop of `subvolume_get_default`: the first word that is a number.
unfoldable pub first_number : ServiceError → List Text → Result ServiceError ℕ
first_number missing [] = err missing
first_number missing (word ∷ rest) = elim (parse_u64 word) [
  | ok id ↦ ok id
  | err _ ↦ first_number missing rest
]

-- A listed deployment: its name, its subvolume's number and its path.
abbrev pub Deployment : Type 0
Deployment = Text × ℕ × Text

module _ (H : Host) where
  unfoldable pub subvolume_list : Text → M H Text
  unfolding run_and_get_stdout
  subvolume_list path = run_and_get_stdout H (text "subvolume" ∷ text "list" ∷ path ∷ [])

  unfoldable pub btrfs_subvol_get_id : Text → M H ℕ
  unfolding find_id
  btrfs_subvol_get_id path = do
    subvolume ← is_btrfs_subvolume H path
    ensure subvolume (btrfs_error (H.debug path ++ text " is not a valid btrfs subvolume"))
    output ← run_and_get_stdout H (text "subvolume" ∷ text "show" ∷ path ∷ [])
    lift (
        find_id (btrfs_error (text "Could not find 'Subvolume ID:' in output for " ++ H.debug path))
          (lines output))

  unfoldable pub subvolume_get_default : Text → M H ℕ
  unfolding first_number
  subvolume_get_default rootfs = do
    output ← run_and_get_stdout H (text "subvolume" ∷ text "get-default" ∷ rootfs ∷ [])
    lift (
        first_number
          (btrfs_error (text "Could not parse default subvolume ID from output: " ++ output))
          (split_whitespace output))

  -- `path.is_dir() && self.is_btrfs_subvolume(&path)?`
  unfoldable pub is_deployment : Text → M H Bool
  is_deployment path = branch (λ s. H.is_dir s path) (is_btrfs_subvolume H path) (pure false)

  unfoldable pub listed : DirEntry → M H (Option Deployment)
  listed entry = do
    found ← is_deployment entry.path
    if not found
        then pure none
        else do id ← btrfs_subvol_get_id entry.path; pure (some (entry.file_name, id, entry.path))

  abbrev keep : Option Deployment → List Deployment → List Deployment
  keep none ds = ds
  keep (some d) ds = d ∷ ds

  -- The loop over the directory, which ends at the first error.
  unfoldable pub list_entries : List (Result Text DirEntry) → M H (List Deployment)
  unfolding listed
  list_entries [] = pure []
  list_entries (err e ∷ rest) = throw (io_os e)
  list_entries (ok entry ∷ rest) =
      listed entry >>= λ d. list_entries rest >>= λ ds. pure (keep d ds)

  unfoldable pub list_deployment_subvolumes : Text → M H (List Deployment)
  unfolding list_entries
  list_deployment_subvolumes deployments_dir = do
    entries ← asks (λ s. map_err os (H.read_dir s deployments_dir))
    list_entries entries
