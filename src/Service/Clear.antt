-- ===== src/Service/Clear.antt =====
-- src/service.rs, `clear_old_deployments`: every deployment goes but the running one and the one
-- of the next boot. The uninstall script of a deployment runs first, if it has one.
pub mod Protects
use embuer.Base.{
  ℕ, ◌+◌, List, [], ◌∷◌, Bool, Option, none, some, Result, ok, err, ◌==◌, ◌||◌, if◌then◌else◌,
}
use embuer.Text.{Text, join}
use embuer.Host.{Host, M, pure, lift, ◌>>=◌, ◌>>◌, handle, asks, branch, throw, ensure, run_script}
use embuer.Manifest.{Manifest, from_file}
use embuer.Btrfs.Query.{Deployment, subvolume_get_default, list_deployment_subvolumes}
use embuer.Btrfs.Change.{subvolume_delete}
use embuer.Install.{manifest_path, is_runnable, script_failed}
use embuer.Service.State.{ServiceInner}

module _ (from_str : Text → Result Text Manifest) (H : Host) (data_guard : ServiceInner) where
  run_uninstall_script : Text → Text → M H (Unit {0})
  unfolding is_runnable script_failed
  run_uninstall_script script_path name =
      branch (λ s. is_runnable H s script_path)
        (run_script H script_failed script_path
            (data_guard.rootfs_dir ∷ data_guard.deployments_dir ∷ name ∷ [])
          >>= λ status. pure tt)
        (pure tt)

  run_declared : Option Text → Text → Text → M H (Unit {0})
  unfolding run_uninstall_script
  run_declared none name path = pure tt
  run_declared (some script) name path = run_uninstall_script (join path script) name

  -- A manifest that cannot be read is only logged.
  uninstall : Text → Text → M H (Unit {0})
  unfolding run_declared
  uninstall name path =
      handle (from_file from_str H (manifest_path path))
        (λ manifest. run_declared manifest.uninstall_script name path) (λ _. pure tt)

  -- The number of deployments that were deleted, 0 or 1: a failed deletion is only logged.
  delete_old : Text → Text → M H ℕ
  unfolding uninstall
  delete_old name path = do
    uninstall name path
    handle (subvolume_delete H path) (λ _. pure 1) (λ _. pure 0)

  clear_one : ℕ → Deployment → M H ℕ
  unfolding delete_old
  clear_one current_id (name, id, path) =
      if id == data_guard.boot_id || id == current_id then pure 0 else delete_old name path

  clear_all : ℕ → List Deployment → M H ℕ
  unfolding clear_one
  clear_all current_id [] = pure 0
  clear_all current_id (d ∷ rest) =
      clear_one current_id d >>= λ n. clear_all current_id rest >>= λ m. pure (n + m)

  unfoldable pub clear_old_deployments : M H ℕ
  unfolding clear_all
  clear_old_deployments = do
    current_id ← subvolume_get_default H data_guard.rootfs_dir
    deployments ← list_deployment_subvolumes H data_guard.deployments_dir
    clear_all current_id deployments
