-- ===== src/Service/Start.antt =====
-- src/service.rs, `Service::new`, as far as the state goes: the directories, the key, and the
-- deployment that is running. The key's parser is `rsa`'s, a parameter. The tasks that `new`
-- spawns are in Requests and Periodic.
pub mod Boots
use embuer.Base.{ℕ, List, [], ◌∷◌, ◌++◌, Option, none, some, map_err, ◌==◌, if◌then◌else◌, ok_or}
use embuer.Text.{Text, text}
use embuer.Text.Number.{show}
use embuer.Error.{btrfs_error, pub_key_import_error}
use embuer.Host.{Host, Env, M, os, error, pure, lift, ◌>>=◌, asks, throw}
use embuer.Signature.{PublicKey}
use embuer.Config.{
  Config, rootfs_dir as config_rootfs_dir, deployments_dir as config_deployments_dir,
}
use embuer.Btrfs.Query.{Deployment, subvolume_get_default, list_deployment_subvolumes}
use embuer.Status.{idle}
use embuer.Service.State.{ServiceInner, ServiceState}

-- The name of the first deployment with this number.
unfoldable pub name_of : ℕ → List Deployment → Option Text
name_of boot_id [] = none
name_of boot_id ((name, id, path) ∷ rest) =
    if id == boot_id then some name else name_of boot_id rest

module _ (from_pkcs1_pem : Text → Option PublicKey) (H : Host) where
  read_pem : Config → M H Text
  read_pem config = elim config.public_key_pem [
    | none ↦ throw pub_key_import_error
    | some path ↦ asks (λ s. map_err os (H.read_to_string s path))
  ]

  unfoldable pub new : Config → M H ServiceInner
  unfolding read_pem name_of
  new config = do
    rootfs_dir ← asks (λ s. map_err error (config_rootfs_dir H s config))
    deployments_dir ← asks (λ s. map_err error (config_deployments_dir H s config))
    pem ← read_pem config
    pubkey ← lift (ok_or pub_key_import_error (from_pkcs1_pem pem))
    boot_id ← subvolume_get_default H rootfs_dir
    deployments ← list_deployment_subvolumes H deployments_dir
    boot_name ← lift (
        ok_or
          (btrfs_error (text "Could not find deployment for running subvolume ID " ++ show boot_id))
          (name_of boot_id deployments))
    pure (record {
      pubkey = pubkey;
      rootfs_dir = rootfs_dir;
      deployments_dir = deployments_dir;
      boot_id = boot_id;
      boot_name = boot_name;
    })

-- The state that a service starts with.
abbrev pub initial : {H : Host} → Env H → ServiceState H
initial e = record {
  env = e;
  update_status = idle;
  pending_update = none;
  decisions = [];
  spawned = [];
}
