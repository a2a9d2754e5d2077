-- ===== src/Install.antt =====
-- src/core.rs, `install_update`: receive the stream, check what has arrived, verify the signature
-- of its hash, run the install script and make the new subvolume the default.
pub mod Laws
pub mod Authentic
pub mod Activates
use Prim.Native.Nat.{bit_and}
use embuer.Base.{
  ℕ, List, [], ◌∷◌, ◌++◌, Bool, true, false, Option, none, some, Result, ok, err, map_err, ok_or,
  if◌then◌else◌, ◌==◌, ◌&&◌, not,
}
use embuer.Text.{Text, text, join}
use embuer.Error.{ServiceError, io_other, display}
use embuer.Host.{
  Host, Env, ExitStatus, Failure, error, panic, M, pure, throw, lift, ◌>>=◌, ◌>>◌, handle,
  run_script, asks, branch, ensure,
}
use embuer.Crypto.{Crypto}
use embuer.Manifest.{Manifest, from_file}
use embuer.Signature.{PublicKey, Run, returned, panicked, verify_signature}
use embuer.Stream.{Reader}
use embuer.Stream.Hashing
use embuer.Stream.Hashing.{HashingReader}
use embuer.Receive.{receive_btrfs_stream}
use embuer.Btrfs.Query.{btrfs_subvol_get_id}
use embuer.Btrfs.Change.{subvolume_delete, subvolume_set_rw, subvolume_set_default}

-- Where a deployment keeps its manifest.
unfoldable pub manifest_path : Text → Text
manifest_path path =
    join (join (join (join path (text "usr")) (text "share")) (text "embuer"))
      (text "manifest.json")

executable : Result Text ℕ → Bool
executable (ok mode) = not (bit_and mode 0o100 == 0)
executable (err e) = false

-- The script exists, is a file, and its owner may execute it.
unfoldable pub is_runnable : (H : Host) → H.State → Text → Bool
unfolding executable
is_runnable H s path = H.exists s path && H.is_file s path && executable (H.mode s path)

unfoldable pub has_manifest : (H : Host) → H.State → Text → Bool
has_manifest H s path = H.exists s (manifest_path path) && H.is_file s (manifest_path path)

unfoldable pub lift_run : {H : Host} {A : Type 0} → Run (Result ServiceError A) → M H A
lift_run (returned r) e = (map_err error r, e)
lift_run panicked e = (err panic, e)

-- The error of a script that cannot be started. Its exit status is only logged.
unfoldable pub script_failed : Text → ServiceError
script_failed e = io_other (text "Failed to execute install script: " ++ e)

module _ (H : Host) where
  -- The subvolume is deleted, if that succeeds, and the installation fails.
  unfoldable pub discard : {A : Type 0} → Text → Text → M H A
  discard path why =
      handle (subvolume_delete H path) (λ _. throw (io_other why)) (λ _. throw (io_other why))

  unfoldable pub subvol_id : Text → M H ℕ
  subvol_id path =
      handle (btrfs_subvol_get_id H path) pure
        (λ e. throw (io_other (text "BTRFS subvolume error: " ++ display e)))

  unfoldable pub check_manifest : Text → M H (Unit {0})
  check_manifest path =
      branch (λ s. has_manifest H s path) (pure tt)
        (discard path (text "Installed subvolume is missing manifest.json"))

  unfoldable pub read_manifest : (Text → Result Text Manifest) → Text → M H Manifest
  read_manifest from_str path =
      handle (from_file from_str H (manifest_path path)) pure
        (λ _. discard path (text "Installed subvolume has invalid manifest.json"))

  unfoldable pub set_writable : Manifest → Text → M H (Unit {0})
  set_writable manifest path = if manifest.readonly then pure tt else subvolume_set_rw H path

  unfoldable pub take_hash : Text → Option Text → M H Text
  take_hash path none = discard path (text "Failed to compute SHA512 hash of update stream")
  take_hash path (some hash_hex) = pure hash_hex

-- What is known of a received subvolume before it is trusted.
pub record Received : Type 0 where
  pub id : ℕ
  pub manifest : Manifest
  pub hash_hex : Text

-- The part of `install_update` from the received name to the hash.
unfoldable pub inspect :
    (H : Host) → (Text → Result Text Manifest) → Text → Option Text → M H Received
inspect H from_str path hash = do
  id ← subvol_id H path
  check_manifest H path
  manifest ← read_manifest H from_str path
  set_writable H manifest path
  hash_hex ← take_hash H path hash
  pure (record { id = id; manifest = manifest; hash_hex = hash_hex })

-- The signature, if the caller asks for one: an error leaves the subvolume where it is.
unfoldable pub authenticate :
    {H : Host} → Crypto → Option (PublicKey × List ℕ) → Text → M H (Unit {0})
authenticate C none hash_hex = pure tt
authenticate C (some (pubkey, signature)) hash_hex =
    lift_run (verify_signature C pubkey signature hash_hex)

module _ (H : Host) (rootfs_dir deployments_dir boot_name name : Text) where
  unfoldable pub run_install_script : Text → M H (Unit {0})
  run_install_script script_path =
      branch (λ s. is_runnable H s script_path)
        (run_script H script_failed script_path
            (rootfs_dir ∷ deployments_dir ∷ name ∷ boot_name ∷ [])
          >>= λ status. pure tt)
        (discard H (join deployments_dir name)
          (text "Installed subvolume has invalid manifest.json"))

  unfoldable pub run_declared : Option Text → M H (Unit {0})
  run_declared none = pure tt
  run_declared (some script) = run_install_script (join (join deployments_dir name) script)

  -- The part of `install_update` behind the signature.
  unfoldable pub activate : Received → M H (Option Text)
  activate r = do
    run_declared r.manifest.install_script
    subvolume_set_default H r.id rootfs_dir
    pure (some name)

module _ (C : Crypto) (from_str : Text → Result Text Manifest) (H : Host) where
  -- From the name that the stream has given to the subvolume.
  unfoldable pub deploy :
      Option (PublicKey × List ℕ) → Text → Text → Text → Option Text → Text → M H (Option Text)
  deploy signature_verify_data rootfs_dir deployments_dir boot_name hash name = do
    received ← inspect H from_str (join deployments_dir name) hash
    authenticate C signature_verify_data received.hash_hex
    activate H rootfs_dir deployments_dir boot_name name received

  -- What follows the stream's end.
  unfoldable pub conclude :
      Option (PublicKey × List ℕ)
      → Text
      → Text
      → Text
      → Option Text
      → Result ServiceError (Option Text)
      → M H (Option Text)
  conclude signature_verify_data rootfs_dir deployments_dir boot_name hash subvolume = do
    found ← lift subvolume
    name ← lift (ok_or (io_other (text "No subvolume name found")) found)
    deploy signature_verify_data rootfs_dir deployments_dir boot_name hash name

  -- The result, and the reader as the stream has left it.
  unfoldable pub install_update :
      {S : Type 0}
      → Reader S
      → Option (PublicKey × List ℕ)
      → Text
      → Text
      → Text
      → S
      → Env H
      → Result Failure (Option Text) × S × Env H
  install_update poll_read signature_verify_data rootfs_dir deployments_dir boot_name reader e =
      let (subvolume, s, e') =
        receive_btrfs_stream H (Hashing.poll_read C poll_read) deployments_dir
          (Hashing.new C reader) e in
      let (r, e'') =
        conclude signature_verify_data rootfs_dir deployments_dir boot_name s.hash_result subvolume
          e' in
      (r, s.inner, e'')
