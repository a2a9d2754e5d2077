-- ===== src/Signature.antt =====
-- src/core.rs, `verify_signature`: an RSA signature with PKCS#1 v1.5 padding of a SHA-512 hash.
-- An index or a slice that is out of range panics.
pub mod Shape
pub mod Safe
pub mod Exact
use embuer.Base.{
  ℕ, suc, ◌+◌, ◌-◌, ◌/◌, List, [], ◌∷◌, ◌++◌, Bool, true, false, Option, none, some, Result, ok,
  err, ltb, leb, ◌==◌, ◌&&◌, ◌||◌, not, if◌then◌else◌, length, take, drop, replicate, get_elem?,
  map_err,
}
use embuer.Text.{Text, text, text_eq}
use embuer.Text.Number.{show}
use embuer.Error.{ServiceError, io_other}
use embuer.Crypto.{Crypto}

-- A result, or a panic.
pub data Run {ℓ} (A : Type ℓ) : Type ℓ where
  returned : A → Run A
  panicked : Run A

pub record PublicKey : Type 0 where
  pub n : ℕ
  pub e : ℕ

abbrev pub digest_info : List ℕ
digest_info =
    0x30 ∷ 0x51 ∷ 0x30 ∷ 0x0d ∷ 0x06 ∷ 0x09 ∷ 0x60 ∷ 0x86 ∷ 0x48 ∷ 0x01 ∷ 0x65 ∷ 0x03 ∷ 0x04 ∷ 0x02
    ∷ 0x03 ∷ 0x05 ∷ 0x00 ∷ 0x04 ∷ 0x40 ∷ []

-- What follows a result, unless it was a panic.
abbrev pub then_run : {A B : Type 0} → Run A → (A → Run B) → Run B
then_run panicked f = panicked
then_run (returned a) f = f a

-- `||` and `if`, whose tests may panic
abbrev pub or_run : Run Bool → Run Bool → Run Bool
or_run panicked q = panicked
or_run (returned true) q = returned true
or_run (returned false) q = q

abbrev pub if_run : {A : Type 0} → Run Bool → Run A → Run A → Run A
if_run panicked p q = panicked
if_run (returned true) p q = p
if_run (returned false) p q = q

-- `bytes[i]`, which panics out of range
unfoldable pub index : List ℕ → ℕ → Run ℕ
index bytes i = elim (get_elem? bytes i) [ none ↦ panicked | some b ↦ returned b ]

-- `bytes[i] != b`
unfoldable pub differs : List ℕ → ℕ → ℕ → Run Bool
unfolding index
differs bytes i b = then_run (index bytes i) (λ c. returned (not (c == b)))

-- `&bytes[i..j]`, which panics out of range
unfoldable pub slice : List ℕ → ℕ → ℕ → Run (List ℕ)
slice bytes i j =
    if leb i j && leb j (length bytes) then returned (take (j - i) (drop i bytes)) else panicked

-- `while sep_idx < padded_bytes.len() && padded_bytes[sep_idx] == 0xFF { sep_idx += 1; }`,
-- on the bytes from `sep_idx` on.
unfoldable pub skip_padding : List ℕ → ℕ → ℕ
skip_padding [] sep_idx = sep_idx
skip_padding (b ∷ bytes) sep_idx = if b == 0xff then skip_padding bytes (suc sep_idx) else sep_idx

unfoldable pub invalid : List ℕ → ServiceError
invalid why = io_other (text "Invalid signature: " ++ why)

unfoldable pub compare_hash : Crypto → List ℕ → Text → List ℕ → Result ServiceError (Unit {0})
compare_hash C hash_bytes hash_hex extracted_hash =
    if text_eq extracted_hash hash_bytes
    then ok tt
    else err (
        invalid (
          text "hash mismatch (computed: "
          ++ hash_hex
          ++ text ", extracted from signature: "
          ++ C.encode extracted_hash
          ++ text ")"))

-- The comparison of the hash behind the separator. A `DigestInfo` that differs is only logged.
unfoldable pub check_hash :
    Crypto → List ℕ → ℕ → List ℕ → Text → Run (Result ServiceError (Unit {0}))
unfolding compare_hash
check_hash C padded digest_start hash_bytes hash_hex =
    let hash_start = digest_start + length digest_info in
    if ltb (length padded) (digest_start + length digest_info + length hash_bytes)
    then returned (err (invalid (text "not enough data for DigestInfo and hash")))
    else then_run (slice padded digest_start hash_start) (λ found_digest_info.
      if ltb (length padded) (hash_start + length hash_bytes)
      then returned (err (invalid (text "not enough data for hash")))
      else then_run (slice padded hash_start (hash_start + length hash_bytes))
          (λ extracted_hash. returned (compare_hash C hash_bytes hash_hex extracted_hash)))

-- The checks on the decrypted block.
unfoldable pub check_block : Crypto → List ℕ → List ℕ → Text → Run (Result ServiceError (Unit {0}))
unfolding differs check_hash
check_block C padded hash_bytes hash_hex =
    let sep_idx = skip_padding (drop 2 padded) 2 in
    if ltb (length padded) (19 + length hash_bytes)
    then returned (err (invalid (text "decrypted value too short")))
    else if_run (or_run (differs padded 0 0x00) (differs padded 1 0x01))
        (returned (err (invalid (text "missing PKCS#1 v1.5 padding prefix"))))
        (if_run (or_run (returned (leb (length padded) sep_idx)) (differs padded sep_idx 0x00))
          (returned (err (invalid (text "missing separator after padding"))))
          (check_hash C padded (suc sep_idx) hash_bytes hash_hex))

-- `full_padded[offset..].copy_from_slice(&padded_bytes)` panics unless the lengths agree.
unfoldable pub full_padded : ℕ → List ℕ → Run (List ℕ)
full_padded key_size padded =
    let offset = key_size - length padded in
    if key_size - offset == length padded then returned (replicate offset 0 ++ padded) else panicked

unfoldable pub key_size : Crypto → PublicKey → ℕ
key_size C key = (C.bits key.n + 7) / 8

unfoldable pub wrong_length : ℕ → ℕ → ServiceError
wrong_length found expected =
    io_other
      (text "Signature length " ++ show found ++ text " does not match key size " ++ show expected)

-- After the hash is decoded: the length, the RSA operation and the block.
unfoldable pub verify_decoded :
    Crypto → PublicKey → List ℕ → Text → List ℕ → Run (Result ServiceError (Unit {0}))
verify_decoded C key signature_bytes hash_hex hash_bytes =
    if length signature_bytes == key_size C key
    then then_run
        (full_padded (key_size C key)
          (C.to_bytes_be (C.modpow (C.from_bytes_be signature_bytes) key.e key.n)))
        (λ block. check_block C block hash_bytes hash_hex)
    else returned (err (wrong_length (length signature_bytes) (key_size C key)))

unfoldable pub verify_signature :
    Crypto → PublicKey → List ℕ → Text → Run (Result ServiceError (Unit {0}))
verify_signature C key signature_bytes hash_hex = elim (C.decode hash_hex) [
  | err e ↦ returned (err (io_other (text "Failed to decode hash hex string: " ++ e)))
  | ok hash_bytes ↦ verify_decoded C key signature_bytes hash_hex hash_bytes
]
