-- ===== src/Config/Laws.antt =====
-- src/config.rs: which directories are accepted.
use embuer.Base.{◌≡◌, ◌↔◌, true, some, ok, arith}
use embuer.Text.{Text, text, join}
use embuer.Host.{Host}
use embuer.Config.{Config, rootfs_dir, deployments_dir}

module _ (H : Host) (s : H.State) (c : Config) (d : Text) where
  -- The conditions on the configured root and on the directory in it.
  pub record Usable : Type 0 where
    pub root : Text
    pub configured : c.rootfs_dir ≡ some root
    pub root_exists : H.exists s root ≡ true
    pub root_is_dir : H.is_dir s root ≡ true
    pub named : d ≡ join root (text "deployments")
    pub exists : H.exists s d ≡ true
    pub is_dir : H.is_dir s d ≡ true

  usable :
      deployments_dir H s c ≡ ok d
      → (root : Text) × (c.rootfs_dir ≡ some root)
        × (H.exists s root ≡ true)
        × (H.is_dir s root ≡ true)
        × (d ≡ join root (text "deployments"))
        × (H.exists s d ≡ true)
        × (H.is_dir s d ≡ true)
  unfolding deployments_dir rootfs_dir
  usable h = ground arith

  accepted : deployments_dir H s c ≡ ok d → Usable
  accepted h =
      let (root, configured, root_exists, root_is_dir, named, exists, is_dir) = usable h in
      record {
        root = root;
        configured = configured;
        root_exists = root_exists;
        root_is_dir = root_is_dir;
        named = named;
        exists = exists;
        is_dir = is_dir;
      }

  accepts : Usable → deployments_dir H s c ≡ ok d
  unfolding deployments_dir rootfs_dir
  accepts u = ground arith

  -- `d` is the directory of the deployments exactly when the configured root exists and is a
  -- directory, and `d` is its `deployments` entry, exists and is a directory.
  pub deployments_dir-Usable : (deployments_dir H s c ≡ ok d) ↔ Usable
  deployments_dir-Usable = (accepted, accepts)
