-- ===== src/Installer/Manual.antt =====
-- src/bin/embuer-installer.rs, `main`: the branch for the source "manual", from the directories on.
use embuer.Base.{[], ◌∷◌, Option, none, some, Result, ok, if◌then◌else◌}
use embuer.Text.{Text, text, join}
use embuer.Error.{io_os, io_other, io_not_found}
use embuer.Host.{Host, M, pure, ensure, asks, ◌>>=◌, ◌>>◌, run_script, read_input}
use embuer.Manifest.{Manifest, from_file}
use embuer.Btrfs.Query.{btrfs_subvol_get_id}
use embuer.Btrfs.Change.{subvolume_set_ro, subvolume_set_rw, subvolume_set_default}
use embuer.Install.{manifest_path}
use embuer.Installer.Options.{Cli}
use embuer.Installer.Kernel.{manual_kernel}

module _ (from_str : Text → Result Text Manifest) (H : Host) where
  unfoldable pub install_kernel : Cli → Text → M H (Unit {0})
  install_kernel cli rootfs = elim cli.manual_kernel [
    | none ↦ pure tt
    | some kernel_src ↦ manual_kernel H kernel_src cli.arch cli.manual_kernel_defconfig rootfs
  ]

  -- The script fills the directories, or else the user does before pressing enter.
  unfoldable pub fill : Option Text → Text → Text → Text → M H (Unit {0})
  fill none name rootfs data_dir = read_input H >>= λ line. pure tt
  fill (some script_path) name rootfs data_dir = do
    status ← run_script H io_os script_path (name ∷ rootfs ∷ data_dir ∷ [])
    ensure status.success (io_other (text "Manual installation script failed"))

  unfoldable pub set_access : Manifest → Text → M H (Unit {0})
  set_access manifest rootfs =
      if manifest.readonly then subvolume_set_ro H rootfs else subvolume_set_rw H rootfs

  unfoldable pub bootfile : Text → Text
  bootfile rootfs = join (join rootfs (text "boot")) (text "bzImage")

  -- What is checked of a filled deployment before it becomes the default one.
  unfoldable pub finish_manual : Text → Text → M H (Unit {0})
  unfolding set_access bootfile
  finish_manual rootfs rootfs_mount_dir = do
    boots ← asks (λ s. ok (H.exists s (bootfile rootfs)))
    ensure boots (io_not_found (text "Boot file not found in the deployment"))
    found ← asks (λ s. ok (H.exists s (manifest_path rootfs)))
    ensure found (io_not_found (text "Manifest file not found in the deployment"))
    manifest ← from_file from_str H (manifest_path rootfs)
    subvol_id ← btrfs_subvol_get_id H rootfs
    set_access manifest rootfs
    subvolume_set_default H subvol_id rootfs_mount_dir

  unfoldable pub install_manual : Cli → Text → Text → Text → M H (Unit {0})
  unfolding install_kernel fill finish_manual
  install_manual cli rootfs data_dir rootfs_mount_dir = do
    install_kernel cli rootfs
    fill cli.manual_script cli.deployment_name rootfs data_dir
    finish_manual rootfs rootfs_mount_dir
