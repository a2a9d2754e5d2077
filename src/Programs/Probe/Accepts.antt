-- ===== src/Programs/Probe/Accepts.antt =====
-- src/bin/test-signature.rs: what it hashes, and what it accepts.
use embuer.Base.{
  ℕ, List, [], ◌∷◌, ◌++◌, ◌≡◌, refl, ap, sym, ◌∙◌, append_assoc, append-nil, Result, ok,
}
use embuer.Text.{Text}
use embuer.Crypto.{Crypto, HashesByParts}
use embuer.Signature.{Run, returned, PublicKey}
use embuer.Signature as core
use embuer.Programs.Probe.Same.{verify_signature-core}
use embuer.Programs.Probe.{
  Files, hash_file, with_signature, hashed, with_file, with_key, with_pem, main,
}

-- The bytes of a file whose reads all succeed, up to the read that returns none.
pub data Reads : List (Result Text (List ℕ)) → List ℕ → Type 0 where
  at_end : Reads [] []
  stops : (rest : List (Result Text (List ℕ))) → Reads (ok [] ∷ rest) []
  goes_on :
      (b : ℕ) (bytes more : List ℕ) (rest : List (Result Text (List ℕ)))
      → Reads rest more
      → Reads (ok (b ∷ bytes) ∷ rest) ((b ∷ bytes) ++ more)

module _ (C : Crypto) (sha512 : List ℕ → List ℕ) (L : HashesByParts C sha512) where
  hash_file-absorbed :
      (h : C.Hasher) (reads : List (Result Text (List ℕ))) (bytes : List ℕ)
      → Reads reads bytes
      → (h' : C.Hasher) × (hash_file C h reads ≡ ok h') × (L.absorbed h' ≡ L.absorbed h ++ bytes)
  unfolding hash_file
  hash_file-absorbed h _ _ at_end = (h, refl, sym (append-nil (L.absorbed h)))
  hash_file-absorbed h _ _ (stops rest) = (h, refl, sym (append-nil (L.absorbed h)))
  hash_file-absorbed h _ _ (goes_on b bytes more rest r) =
      let (h', e, a) = hash_file-absorbed (C.update h (b ∷ bytes)) rest more r in
      (
        h',
        e,
        a
            ∙ ap (λ t. t ++ more) (L.absorbed-update h (b ∷ bytes))
            ∙ append_assoc (L.absorbed h) (b ∷ bytes) more,
      )

  module _ (X : Files) (pubkey_path file_path sig_path pem : Text) (pubkey : PublicKey) where
    -- With files that can be read and a key that can be parsed, the program, which verifies with code
    -- of its own, ends as the service's `verify_signature` does for the signature and the hash of all bytes of the file.
    pub main-verify_signature :
        (program : Text) (reads : List (Result Text (List ℕ))) (bytes signature : List ℕ)
        → X.read_to_string pubkey_path ≡ ok pem
        → X.from_pkcs1_pem pem ≡ ok pubkey
        → X.open_file file_path ≡ ok reads
        → Reads reads bytes
        → X.read sig_path ≡ ok signature
        → main C X (program ∷ pubkey_path ∷ file_path ∷ sig_path ∷ [])
          ≡ core.verify_signature C pubkey signature (C.encode (sha512 bytes))
    unfolding main with_pem with_key with_file hashed with_signature
    main-verify_signature program reads bytes signature p k o r g =
        let (h, e, a) = hash_file-absorbed C.fresh reads bytes r in
        let all : sha512 (L.absorbed h) ≡ sha512 bytes =
          ap sha512 (a ∙ ap (λ t. t ++ bytes) L.absorbed-fresh) in
        rw (p, k, o, e, g)
          (verify_signature-core C pubkey signature _
            ∙ ap (λ t. core.verify_signature C pubkey signature (C.encode t))
                (L.finalize_lem h ∙ all))
