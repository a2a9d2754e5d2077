-- ===== src/Programs/Bundle.antt =====
-- src/bin/embuer-genupdate.rs: signs update.btrfs.xz, checks the signature when there is a public
-- key, and packs the update. Of the commands, only the check's status is looked at.
pub mod Verified
use embuer.Base.{[], ◌∷◌, ◌++◌, Bool, true, false, Option, none, some, Result, ok, if◌then◌else◌}
use embuer.Text.{Text, text, join}
use embuer.Error.{boxed_error, io_os}
use embuer.Host.{Host, M, Output, pure, ensure, asks, ◌>>=◌, ◌>>◌, run_program, change, remove_file}

-- `EmbuerGenupdateCli`
pub record Cli : Type 0 where
  pub path : Text
  pub private_key_pem : Text
  pub public_key_pem : Option Text
  pub clean : Bool

abbrev pub update_btrfs_xz : Cli → Text
update_btrfs_xz cli = join cli.path (text "update.btrfs.xz")

abbrev pub update_signature_path : Cli → Text
update_signature_path cli = join cli.path (text "update.signature")

module _ (H : Host) where
  -- A path that exists and is of its kind; `what` and `kind` are the words of the error.
  unfoldable pub expect : (H.State → Text → Bool) → Text → Text → Text → M H (Unit {0})
  expect is_kind what kind path = do
    found ← asks (λ s. ok (H.exists s path))
    ensure found (boxed_error (what ++ text " " ++ path ++ text " does not exist"))
    right ← asks (λ s. ok (is_kind s path))
    ensure right (boxed_error (what ++ text " " ++ path ++ text " is not a " ++ kind))

  unfoldable pub sign : Cli → M H Output
  sign cli = run_program H io_os (text "openssl") (
      text "dgst"
      ∷ text "-sha512"
      ∷ text "-sign"
      ∷ cli.private_key_pem
      ∷ text "-out"
      ∷ update_signature_path cli
      ∷ update_btrfs_xz cli
      ∷ [])

  unfoldable pub verify_args : Cli → Text → M H Output
  verify_args cli pubkey_path = run_program H io_os (text "openssl") (
      text "dgst"
      ∷ text "-sha512"
      ∷ text "-verify"
      ∷ pubkey_path
      ∷ text "-signature"
      ∷ update_signature_path cli
      ∷ update_btrfs_xz cli
      ∷ [])

  unfoldable pub verify : Cli → Option Text → M H (Unit {0})
  unfolding verify_args
  verify cli none = pure tt
  verify cli (some pubkey_path) = do
    found ← asks (λ s. ok (H.exists s pubkey_path))
    ensure found (boxed_error (text "Public key file " ++ pubkey_path ++ text " does not exist"))
    verification_result ← verify_args cli pubkey_path
    ensure verification_result.success (boxed_error (text "Update signature verification failed"))

  unfoldable pub pack : Cli → M H Output
  pack cli = run_program H io_os (text "tar") (
      text "cf"
      ∷ join cli.path (text "update_package.tar")
      ∷ text "-C"
      ∷ cli.path
      ∷ text "CHANGELOG"
      ∷ text "update.signature"
      ∷ text "update.btrfs.xz"
      ∷ [])

  unfoldable pub clean_up : Cli → M H (Unit {0})
  clean_up cli =
      if cli.clean
      then change H (remove_file (update_signature_path cli))
        >> change H (remove_file (update_btrfs_xz cli))
      else pure tt

  unfoldable pub check_inputs : Cli → M H (Unit {0})
  unfolding expect
  check_inputs cli = do
    expect H.is_dir (text "Path") (text "directory") cli.path
    expect H.is_file (text "File") (text "file") (update_btrfs_xz cli)
    expect H.is_file (text "Private key file") (text "file") cli.private_key_pem

  unfoldable pub main : Cli → M H (Unit {0})
  unfolding check_inputs sign verify pack clean_up
  main cli = do check_inputs cli; sign cli; verify cli cli.public_key_pem; pack cli; clean_up cli
