-- ===== src/Programs/Keys.antt =====
-- src/bin/embuer-genkeys.rs: a new pair of keys, by openssl. Of openssl the status is not looked at.
pub mod Overwrites
use embuer.Base.{[], ◌∷◌, ◌++◌, Bool, true, false, Result, ok, not, if◌then◌else◌}
use embuer.Text.{Text, text}
use embuer.Error.{ServiceError, boxed_error, io_os}
use embuer.Host.{Host, M, Output, pure, ensure, asks, ◌>>=◌, ◌>>◌, run_program}

-- `EmbuerGenkeysCli`
pub record Cli : Type 0 where
  pub private_key_pem : Text
  pub public_key_pem : Text

unfoldable pub exists_already : Text → ServiceError
exists_already path =
    boxed_error (text "File " ++ path ++ text " already exists, refusing to overwrite")

module _ (H : Host) where
  unfoldable pub refuse_existing : Text → M H (Unit {0})
  unfolding exists_already
  refuse_existing path = do
    found ← asks (λ s. ok (H.exists s path))
    ensure (not found) (exists_already path)

  unfoldable pub generate_private : Text → M H Output
  generate_private path =
      run_program H io_os (text "openssl") (text "genrsa" ∷ text "-out" ∷ path ∷ text "2048" ∷ [])

  unfoldable pub generate_public : Text → Text → M H Output
  generate_public private public = run_program H io_os (text "openssl") (
      text "rsa"
      ∷ text "-in"
      ∷ private
      ∷ text "-pubout"
      ∷ text "-outform"
      ∷ text "PEM"
      ∷ text "-RSAPublicKey_out"
      ∷ text "-out"
      ∷ public
      ∷ [])

  unfoldable pub main : Cli → M H (Unit {0})
  unfolding refuse_existing generate_private generate_public
  main cli = do
    refuse_existing cli.private_key_pem
    refuse_existing cli.public_key_pem
    generate_private cli.private_key_pem
    generate_public cli.private_key_pem cli.public_key_pem
    pure tt
