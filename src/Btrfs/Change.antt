-- ===== src/Btrfs/Change.antt =====
-- src/btrfs.rs: the calls that change a subvolume.
use embuer.Base.{ℕ, List, [], ◌∷◌, ◌++◌, if◌then◌else◌, not}
use embuer.Text.{Text, text, contains}
use embuer.Text.Number.{show}
use embuer.Error.{btrfs_error}
use embuer.Host.{Host, M, pure, ensure, ◌>>=◌, ◌>>◌}
use embuer.Btrfs.{run_and_get_stdout, is_btrfs_subvolume}

-- The arguments of the call that makes a subvolume the default.
abbrev pub set_default_args : ℕ → Text → List Text
set_default_args subvol_id rootfs =
    text "subvolume" ∷ text "set-default" ∷ show subvol_id ∷ rootfs ∷ []

abbrev pub delete_args : Text → List Text
delete_args path = text "subvolume" ∷ text "delete" ∷ path ∷ []

module _ (H : Host) where
  unfoldable pub get_property : Text → M H Text
  get_property path = run_and_get_stdout H (text "property" ∷ text "get" ∷ text "-fts" ∷ path ∷ [])

  unfoldable pub set_property : Text → Text → M H Text
  set_property path value =
      run_and_get_stdout H
        (text "property" ∷ text "set" ∷ text "-fts" ∷ path ∷ text "ro" ∷ value ∷ [])

  unfoldable pub subvolume_set_rw : Text → M H (Unit {0})
  unfolding get_property set_property
  subvolume_set_rw path = do
    subvolume ← is_btrfs_subvolume H path
    ensure subvolume
        (btrfs_error (text "The given path " ++ H.debug path ++ text " is not a btrfs subvolume"))
    property_state ← get_property path
    if not (contains (text "ro=true") property_state) then pure tt else do
      set_property path (text "false")
      property_state_after ← get_property path
      ensure (contains (text "ro=false") property_state_after) (
          btrfs_error (
            text "The subvolume "
            ++ H.debug path
            ++ text " is still read-only after attempting to set it read-write"))

  unfoldable pub subvolume_set_ro : Text → M H (Unit {0})
  unfolding get_property set_property
  subvolume_set_ro path = do
    subvolume ← is_btrfs_subvolume H path
    ensure subvolume
        (btrfs_error (text "The given path " ++ H.debug path ++ text " is not a btrfs subvolume"))
    property_state ← get_property path
    if not (contains (text "ro=false") property_state) then pure tt else do
      set_property path (text "true")
      property_state_after ← get_property path
      ensure (contains (text "ro=true") property_state_after) (
          btrfs_error (
            text "The subvolume "
            ++ H.debug path
            ++ text " is still read-write after attempting to set it read-only"))

  unfoldable pub subvolume_set_default : ℕ → Text → M H (Unit {0})
  subvolume_set_default subvol_id rootfs = do
    run_and_get_stdout H (set_default_args subvol_id rootfs)
    pure tt

  unfoldable pub subvolume_create : Text → M H Text
  subvolume_create path = run_and_get_stdout H (text "subvolume" ∷ text "create" ∷ path ∷ [])

  unfoldable pub subvolume_delete : Text → M H Text
  subvolume_delete path = run_and_get_stdout H (delete_args path)
