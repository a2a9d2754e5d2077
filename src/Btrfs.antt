-- ===== src/Btrfs.antt =====
-- src/btrfs.rs: the wrapper of the `btrfs` program.
pub mod Query
pub mod Receive
pub mod Change
pub mod Access
pub mod Laws
pub mod Numbers
use embuer.Base.{
  ℕ, List, [], ◌∷◌, ◌++◌, Bool, true, false, Result, ok, err, map_err, if◌then◌else◌, ◌==◌, ◌||◌,
  not,
}
use embuer.Text.{Text, text, trim}
use embuer.Error.{ServiceError, btrfs_error, io_os, io_other}
use embuer.Host.{
  os, error, Host, Output, Env, M, pure, throw, lift, ◌>>=◌, run_btrfs, asks, branch, ensure, ◌>>◌,
  run_script,
}

-- The `Btrfs` value holds the version that the program reports.
pub record Btrfs : Type 0 where
  pub version : Text

module _ (H : Host) where
  probed : Output → Result ServiceError Btrfs
  probed o =
      if o.success
      then ok (record { version = trim o.stdout })
      else err (btrfs_error (text "btrfs returned non-zero exit status: " ++ trim o.stderr))

  -- `Btrfs::new()`
  unfoldable pub new : M H Btrfs
  unfolding probed
  new = do output ← run_btrfs H (text "--version" ∷ []); lift (probed output)

  stdout_of : Output → Result ServiceError Text
  stdout_of o = if o.success then ok o.stdout else err (btrfs_error o.stderr)

  unfoldable pub run_and_get_stdout : List Text → M H Text
  unfolding stdout_of
  run_and_get_stdout args = do output ← run_btrfs H args; lift (stdout_of output)

  abbrev pub super_magic : ℕ
  super_magic = 0x9123683e

  statfs_failed : Text → Text → ServiceError
  statfs_failed path e =
      io_other (text "Failed to get filesystem info for " ++ path ++ text ": " ++ e)

  -- A subvolume's root has the inode number 2 or 256. The inode is asked for on btrfs only.
  unfoldable pub is_btrfs_subvolume : Text → M H Bool
  unfolding statfs_failed
  is_btrfs_subvolume path = do
    magic ← asks (λ s. map_err (λ x. error (statfs_failed path x)) (H.statfs s path))
    if not (magic == super_magic)
        then pure false
        else do inode ← asks (λ s. map_err os (H.inode s path)); pure (inode == 2 || inode == 256)
