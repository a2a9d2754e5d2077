-- ===== src/Programs/Probe.antt =====
-- src/bin/test-signature.rs: checks the signature of a file, outside of the service. What is printed
-- is left out. A file is given by what its reads return, a read of no bytes being its end.
pub mod Verify
pub mod Same
pub mod Accepts
use embuer.Base.{ℕ, List, [], ◌∷◌, ◌++◌, Option, none, some, Result, ok, err}
use embuer.Text.{Text, text}
use embuer.Error.{ServiceError, boxed_error, io_os}
use embuer.Crypto.{Crypto}
use embuer.Signature.{Run, returned, panicked, PublicKey}
use embuer.Programs.Probe.Verify.{verify_signature}

-- The files that are named by the arguments, and the parser of keys.
pub record Files : Type 0 where
  pub read_to_string : Text → Result Text Text
  pub open_file : Text → Result Text (List (Result Text (List ℕ)))
  pub read : Text → Result Text (List ℕ)
  pub from_pkcs1_pem : Text → Result Text PublicKey

module _ (C : Crypto) where
  -- The loop over the file: what the hasher has at its end.
  unfoldable pub hash_file : C.Hasher → List (Result Text (List ℕ)) → Result ServiceError C.Hasher
  hash_file hasher [] = ok hasher
  hash_file hasher (err e ∷ rest) = err (io_os e)
  hash_file hasher (ok [] ∷ rest) = ok hasher
  hash_file hasher (ok (b ∷ bytes) ∷ rest) = hash_file (C.update hasher (b ∷ bytes)) rest

  module _ (X : Files) where
    unfoldable pub with_signature :
        PublicKey → C.Hasher → Result Text (List ℕ) → Run (Result ServiceError (Unit {0}))
    with_signature pubkey hasher (err e) = returned (err (io_os e))
    with_signature pubkey hasher (ok signature_bytes) =
        verify_signature C pubkey signature_bytes (C.encode (C.finalize hasher))

    unfoldable pub hashed :
        PublicKey → Text → Result ServiceError C.Hasher → Run (Result ServiceError (Unit {0}))
    unfolding with_signature
    hashed pubkey sig_path (err e) = returned (err e)
    hashed pubkey sig_path (ok hasher) = with_signature pubkey hasher (X.read sig_path)

    unfoldable pub with_file :
        PublicKey
        → Text
        → Result Text (List (Result Text (List ℕ)))
        → Run (Result ServiceError (Unit {0}))
    unfolding hash_file hashed
    with_file pubkey sig_path (err e) = returned (err (io_os e))
    with_file pubkey sig_path (ok reads) = hashed pubkey sig_path (hash_file C.fresh reads)

    unfoldable pub with_key :
        Text → Text → Result Text PublicKey → Run (Result ServiceError (Unit {0}))
    unfolding with_file
    with_key file_path sig_path (err e) =
        returned (err (boxed_error (text "Failed to parse public key: " ++ e)))
    with_key file_path sig_path (ok pubkey) = with_file pubkey sig_path (X.open_file file_path)

    unfoldable pub with_pem : Text → Text → Result Text Text → Run (Result ServiceError (Unit {0}))
    unfolding with_key
    with_pem file_path sig_path (err e) = returned (err (io_os e))
    with_pem file_path sig_path (ok pem) = with_key file_path sig_path (X.from_pkcs1_pem pem)

    -- Without its three arguments the program prints its usage and exits with 1.
    unfoldable pub main : List Text → Run (Result ServiceError (Unit {0}))
    unfolding with_pem
    main (program ∷ pubkey_path ∷ file_path ∷ sig_path ∷ []) =
        with_pem file_path sig_path (X.read_to_string pubkey_path)
    main _ = returned (err (boxed_error (text "Usage")))
