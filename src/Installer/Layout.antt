-- ===== src/Installer/Layout.antt =====
-- src/bin/embuer-installer.rs: `prepare_rootfs_partition`, `prepare_deployment_directories` and
-- `prepare_deployment_data_directories`, the subvolumes and directories of an installation.
use embuer.Base.{List, [], ◌∷◌, ok, if◌then◌else◌}
use embuer.Text.{Text, text, join}
use embuer.Host.{Host, M, pure, asks, ◌>>=◌, ◌>>◌, change, create_dir_all}
use embuer.Btrfs.Change.{subvolume_create, subvolume_set_ro}

module _ (H : Host) where
  unfoldable pub create_dirs : Text → List Text → M H (Unit {0})
  create_dirs base [] = pure tt
  create_dirs base (d ∷ rest) = do change H (create_dir_all (join base d)); create_dirs base rest

  abbrev pub plain_overlays : List Text
  plain_overlays =
      text "etc_overlay/upperdir"
      ∷ text "etc_overlay/workdir"
      ∷ text "var_overlay/upperdir"
      ∷ text "var_overlay/workdir"
      ∷ text "root_overlay/upperdir"
      ∷ text "root_overlay/workdir"
      ∷ []

  abbrev pub overlay_dirs : List Text
  overlay_dirs = text "upperdir" ∷ text "workdir" ∷ []

  -- An overlay that is a subvolume of its own.
  unfoldable pub create_overlay : Text → M H (Unit {0})
  unfolding create_dirs
  create_overlay dir = do subvolume_create H dir; create_dirs dir overlay_dirs

  unfoldable pub prepare_deployment_directories : Text → Text → Text → M H (Text × Text)
  unfolding create_overlay
  prepare_deployment_directories deployments_dir deployments_data_dir deployment_name =
      let rootfs = join deployments_dir deployment_name in
      let data_dir = join deployments_data_dir deployment_name in
      do
        subvolume_create H rootfs
        subvolume_create H data_dir
        create_dirs data_dir plain_overlays
        create_overlay (join data_dir (text "usr_overlay"))
        create_overlay (join data_dir (text "opt_overlay"))
        subvolume_set_ro H (join data_dir (text "usr_overlay"))
        subvolume_set_ro H (join data_dir (text "opt_overlay"))
        pure (rootfs, data_dir)

  -- A subvolume, unless something is there already.
  unfoldable pub create_missing : Text → M H (Unit {0})
  create_missing dir = do
    found ← asks (λ s. ok (H.exists s dir))
    if found then pure tt else subvolume_create H dir >>= λ out. pure tt

  unfoldable pub complete_overlay : Text → M H (Unit {0})
  unfolding create_missing create_dirs
  complete_overlay dir = do create_missing dir; create_dirs dir overlay_dirs

  unfoldable pub prepare_deployment_data_directories : Text → Text → M H Text
  unfolding complete_overlay
  prepare_deployment_data_directories deployments_data_dir deployment_name =
      let data_dir = join deployments_data_dir deployment_name in
      do
        create_missing data_dir
        create_dirs data_dir plain_overlays
        complete_overlay (join data_dir (text "usr_overlay"))
        complete_overlay (join data_dir (text "opt_overlay"))
        subvolume_set_ro H (join data_dir (text "usr_overlay"))
        subvolume_set_ro H (join data_dir (text "opt_overlay"))
        pure data_dir

  unfoldable pub prepare_rootfs_partition : Text → M H (Text × Text)
  prepare_rootfs_partition rootfs_mount_dir =
      let deployments_dir = join rootfs_mount_dir (text "deployments") in
      let deployments_data_dir = join rootfs_mount_dir (text "deployments_data") in
      do
        subvolume_create H deployments_dir
        subvolume_create H deployments_data_dir
        subvolume_set_ro H rootfs_mount_dir
        pure (deployments_dir, deployments_data_dir)
