-- ===== src/Installer/Main.antt =====
-- src/bin/embuer-installer.rs: `main`, from the parts.
use embuer.Base.{
  ℕ, Bool, true, false, List, [], ◌∷◌, ◌++◌, Option, none, some, Result, if◌then◌else◌,
}
use embuer.Text.{Text, text, text_eq, join}
use embuer.Error.{io_os, io_other}
use embuer.Host.{
  Host, M, pure, throw, panics, ◌>>=◌, ◌>>◌, run_program, change, create_dir_all, read_input,
}
use embuer.Crypto.{Crypto}
use embuer.Manifest.{Manifest}
use embuer.Stream.{Poll, scripted}
use embuer.Btrfs.{run_and_get_stdout}
use embuer.Btrfs as btrfs
use embuer.Install.{install_update}
use embuer.Service.Requests.{Sources}
use embuer.Installer.Options.{
  Cli, Bootloader, refind, imx8_file, architecture, parse_bootloader, rootfs_part_number,
}
use embuer.Installer.Disk.{
  device, partition, scoped, create_partitions, format_rootfs, mount_rootfs, partuuid, format_esp,
  mount_esp, with_device,
}
use embuer.Installer.Refind.{Carried, install_bootloader_refind}
use embuer.Installer.Layout.{
  prepare_rootfs_partition, prepare_deployment_directories, prepare_deployment_data_directories,
}
use embuer.Installer.Manual.{install_manual}
use embuer.Installer.Package.{wrapped_reader}

-- The crates that the installer calls, and what it carries.
pub record Platform (H : Host) : Type 1 where
  pub crypto : Crypto
  pub manifest : Text → Result Text Manifest
  pub is_numeric : ℕ → Bool
  pub sources : Sources H
  pub carried : Carried

module _ {H : Host} (X : Platform H) (cli : Cli) where
  abbrev pub base_mount_path : Text
  base_mount_path = join X.carried.temp_dir (text "embuer_mnt")

  abbrev pub rootfs_mount_dir : Text
  rootfs_mount_dir = base_mount_path ++ text "/rootfs"

  abbrev pub or_else : Option Text → Text → Text
  or_else none d = d
  or_else (some t) d = t

  abbrev pub waits : Option Bool → Bool
  waits (some true) = true
  waits _ = false

  -- The stream of a package goes the way of `install_update`, without a key.
  unfoldable pub receive_update : Text → List Poll → M H (Option Text)
  unfolding install_update
  receive_update deployments_dir stream e =
      let (r, s, e') =
        install_update X.crypto X.manifest H scripted none rootfs_mount_dir deployments_dir
          cli.deployment_name stream e in
      (r, e')

  unfoldable pub press_enter : M H (Unit {0})
  press_enter = if waits cli.wait then (read_input H >>= λ line. pure tt) else pure tt

  unfoldable pub installed : Text → Option Text → M H (Unit {0})
  unfolding press_enter
  installed deployments_data_dir none = throw (io_other (text "No deployment name returned"))
  installed deployments_data_dir (some real_name) = do
    press_enter
    prepare_deployment_data_directories H deployments_data_dir real_name
    pure tt

  unfoldable pub install_package : Text → Text → M H (Unit {0})
  unfolding receive_update installed
  install_package deployments_dir deployments_data_dir = do
    stream ← wrapped_reader X.sources cli.deployment_source
    name ← receive_update deployments_dir stream
    installed deployments_data_dir name

  -- The two ways to a deployment.
  unfoldable pub install_deployment : Text → Text → M H (Unit {0})
  unfolding install_package
  install_deployment deployments_dir deployments_data_dir =
      if text_eq cli.deployment_source (text "manual")
      then (prepare_deployment_directories H deployments_dir deployments_data_dir
            cli.deployment_name
          >>= λ dirs. install_manual X.manifest H cli dirs.0 dirs.1 rootfs_mount_dir)
      else install_package deployments_dir deployments_data_dir

  -- The directory of a deployment that has the name that was asked for.
  unfoldable pub snapshot_args : Text → Text → List Text
  snapshot_args deployments_dir path =
      text "send"
      ∷ join deployments_dir cli.deployment_name
      ∷ text "-f"
      ∷ join path (text "update.btrfs")
      ∷ []

  unfoldable pub generate : Option Text → Text → M H (Unit {0})
  unfolding snapshot_args
  generate none deployments_dir = pure tt
  generate (some path) deployments_dir = do
    run_and_get_stdout H (snapshot_args deployments_dir path)
    run_program H io_os (text "xz")
        (text "-9e" ∷ text "--memory=95%" ∷ text "-T0" ∷ join path (text "update.btrfs") ∷ [])
    pure tt

  -- From `Btrfs::new` to the end.
  unfoldable pub install_system : M H (Unit {0})
  unfolding install_deployment generate
  install_system = do
    btrfs.new H
    dirs ← prepare_rootfs_partition H rootfs_mount_dir
    install_deployment dirs.0 dirs.1
    generate cli.generate_deployment dirs.0

  unfoldable pub install_refind : Text → M H (Unit {0})
  install_refind rootfs_partuuid =
      install_bootloader_refind X.carried H (base_mount_path ++ text "/esp") (architecture cli.arch)
        rootfs_partuuid (or_else cli.cmdline []) (or_else cli.name (text "embuer"))

  -- For the IMX8 bootloader there is a `todo!()`.
  unfoldable pub with_bootloader : Option Bootloader → Text → Text → M H (Unit {0})
  unfolding install_system install_refind
  with_bootloader none disk rootfs_partuuid = install_system
  with_bootloader (some (imx8_file path)) disk rootfs_partuuid = panics
  with_bootloader (some refind) disk rootfs_partuuid =
      let esp = partition X.is_numeric disk 1 in
      do
        format_esp H esp
        mount_esp H esp (base_mount_path ++ text "/esp")
        scoped H (device esp) (install_refind rootfs_partuuid >> install_system)

  unfoldable pub with_rootfs : Option Bootloader → Text → Text → M H (Unit {0})
  unfolding with_bootloader
  with_rootfs bootloader disk part = do
    rootfs_partuuid ← partuuid H part
    with_bootloader bootloader disk rootfs_partuuid

  unfoldable pub on_device : Text → M H (Unit {0})
  unfolding with_rootfs
  on_device disk = do
    bootloader ← parse_bootloader H cli.bootloader
    create_partitions H disk bootloader
    format_rootfs H (partition X.is_numeric disk (rootfs_part_number bootloader))
    mount_rootfs H (partition X.is_numeric disk (rootfs_part_number bootloader)) rootfs_mount_dir
    scoped H (device (partition X.is_numeric disk (rootfs_part_number bootloader)))
        (with_rootfs bootloader disk (partition X.is_numeric disk (rootfs_part_number bootloader)))

  unfoldable pub main : M H (Unit {0})
  unfolding on_device
  main = do
    change H (create_dir_all base_mount_path)
    with_device H cli.device cli.image cli.image_size on_device
