-- ===== src/Programs/Probe/Verify.antt =====
-- src/bin/test-signature.rs, `verify_signature`: the program's own copy of the verification, which
-- prints parts of the block in between. What it prints is left out, what it reads for that is not.
use embuer.Base.{
  ℕ, suc, ◌+◌, List, ◌++◌, Result, ok, err, ltb, leb, ◌==◌, if◌then◌else◌, length, drop,
}
use embuer.Text.{Text, text, text_eq}
use embuer.Error.{ServiceError, io_other}
use embuer.Crypto.{Crypto}
use embuer.Signature.{
  Run, returned, PublicKey, then_run, or_run, if_run, index, differs, slice, digest_info,
  skip_padding, full_padded, key_size, wrong_length,
}

abbrev Verdict : Type 0
Verdict = Result ServiceError (Unit {0})

unfoldable pub refuse : Text → Run Verdict
refuse why = returned (err (io_other (text "Invalid signature: " ++ why)))

module _ (C : Crypto) (hash_bytes : List ℕ) (hash_hex : Text) where
  unfoldable pub compare : List ℕ → Run Verdict
  unfolding refuse
  compare extracted_hash =
      if text_eq extracted_hash hash_bytes
      then returned (ok tt)
      else refuse (
          text "hash mismatch (computed: "
          ++ hash_hex
          ++ text ", extracted from signature: "
          ++ C.encode extracted_hash
          ++ text ")")

  -- From `digest_start` on. A `DigestInfo` that differs is only printed.
  unfoldable pub check_digest : List ℕ → ℕ → Run Verdict
  unfolding refuse compare
  check_digest padded_bytes digest_start =
      let hash_start = digest_start + length digest_info in
      if ltb (length padded_bytes) (digest_start + length digest_info + length hash_bytes)
      then refuse (text "not enough data for DigestInfo and hash")
      else then_run (slice padded_bytes digest_start hash_start) (λ found_digest_info.
        if ltb (length padded_bytes) (hash_start + length hash_bytes)
        then refuse (text "not enough data for hash")
        else then_run (slice padded_bytes hash_start (hash_start + length hash_bytes)) compare)

  -- The first two bytes are printed when they are wrong.
  unfoldable pub wrong_prefix : List ℕ → Run Verdict
  unfolding refuse
  wrong_prefix padded_bytes = then_run (index padded_bytes 0) (λ first.
      then_run (index padded_bytes 1)
        (λ second. refuse (text "missing PKCS#1 v1.5 padding prefix")))

  -- The byte at the separator's place is printed, if there is one.
  unfoldable pub wrong_separator : List ℕ → ℕ → Run Verdict
  unfolding refuse
  wrong_separator padded_bytes sep_idx =
      then_run
        (if ltb sep_idx (length padded_bytes) then index padded_bytes sep_idx else returned 0)
        (λ shown. refuse (text "missing separator after padding"))

  unfoldable pub check_padded : List ℕ → Run Verdict
  unfolding refuse check_digest wrong_prefix wrong_separator
  check_padded padded_bytes =
      let len = length padded_bytes in
      let sep_idx = skip_padding (drop 2 padded_bytes) 2 in
      then_run (slice padded_bytes 0 (if ltb len 50 then len else 50)) (λ first_50.
        if ltb len (19 + length hash_bytes)
        then refuse (text "decrypted value too short")
        else if_run (or_run (differs padded_bytes 0 0x00) (differs padded_bytes 1 0x01))
            (wrong_prefix padded_bytes)
            (if_run (or_run (returned (leb len sep_idx)) (differs padded_bytes sep_idx 0x00))
              (wrong_separator padded_bytes sep_idx) (check_digest padded_bytes (suc sep_idx))))

  unfoldable pub verify_decoded : PublicKey → List ℕ → Run Verdict
  verify_decoded pubkey signature_bytes =
      if length signature_bytes == key_size C pubkey
      then then_run
          (full_padded (key_size C pubkey)
            (C.to_bytes_be (C.modpow (C.from_bytes_be signature_bytes) pubkey.e pubkey.n)))
          check_padded
      else returned (err (wrong_length (length signature_bytes) (key_size C pubkey)))

unfoldable pub verify_signature : Crypto → PublicKey → List ℕ → Text → Run Verdict
unfolding verify_decoded
verify_signature C pubkey signature_bytes hash_hex = elim (C.decode hash_hex) [
  | err e ↦ returned (err (io_other (text "Failed to decode hash hex string: " ++ e)))
  | ok hash_bytes ↦ verify_decoded C hash_bytes hash_hex pubkey signature_bytes
]
