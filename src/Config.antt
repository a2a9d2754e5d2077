-- ===== src/Config.antt =====
-- src/config.rs: the configuration, and the directories that it names.
pub mod Laws
use embuer.Base.{
  Bool, true, false, Option, none, some, Result, ok, err, map_err, if◌then◌else◌, ◌&&◌,
}
use embuer.Text.{Text, text, join}
use embuer.Error.{
  ServiceError, io_os, json_error, missing_rootfs_dir, missing_deployments_dir,
  missing_configuration_error,
}
use embuer.Host.{
  os, error, Host, M, throw, lift, ensure, ◌>>=◌, ◌>>◌, asks, branch, pure, run_script,
}

pub record Config : Type 0 where
  pub update_url : Option Text
  pub auto_install_updates : Bool
  pub public_key_pem : Option Text
  pub rootfs_dir : Option Text

-- `Config::default()`
abbrev pub default : Config
default = record {
  update_url = none;
  auto_install_updates = false;
  public_key_pem = none;
  rootfs_dir = none;
}

module _ (from_str : Text → Result Text Config) where
  unfoldable pub new : Text → Result ServiceError Config
  new json_str = map_err json_error (from_str json_str)

  unfoldable pub from_file : (H : Host) → Text → M H Config
  unfolding new
  from_file H path = do s ← asks (λ s. map_err os (H.read_to_string s path)); lift (new s)

  unfoldable pub load_from : (H : Host) → Text → M H Config
  unfolding from_file
  load_from H path = do
    found ← asks (λ s. ok (H.exists s path))
    ensure found (missing_configuration_error path)
    from_file H path

module _ (H : Host) (s : H.State) where
  directory : ServiceError → Text → Result ServiceError Text
  directory missing p = if H.exists s p && H.is_dir s p then ok p else err missing

  -- `Config::rootfs_dir`
  unfoldable pub rootfs_dir : Config → Result ServiceError Text
  unfolding directory
  rootfs_dir c = elim c.rootfs_dir [
    | none ↦ err missing_rootfs_dir
    | some p ↦ directory missing_rootfs_dir p
  ]

  -- `Config::deployments_dir`
  unfoldable pub deployments_dir : Config → Result ServiceError Text
  unfolding rootfs_dir
  deployments_dir c = elim (rootfs_dir c) [
    | err e ↦ err e
    | ok p ↦ directory missing_deployments_dir (join p (text "deployments"))
  ]
