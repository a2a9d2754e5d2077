-- ===== src/Crypto.antt =====
-- The crates `sha2`, `hex`, `rsa` and `num-bigint`, which the program calls: their functions as a
-- record, and the documented behaviour that theorems name as a hypothesis.
use embuer.Base.{ℕ, ◌+◌, ◌/◌, ◌≤◌, ◌<◌, List, [], ◌++◌, ◌≡◌, Result, length}
use embuer.Text.{Text}

pub record Crypto : Type 1 where
  -- `Sha512::new`, `update`, `finalize`
  pub Hasher : Type 0
  pub fresh : Hasher
  pub update : Hasher → List ℕ → Hasher
  pub finalize : Hasher → List ℕ
  -- `hex::encode`, `hex::decode` with the text of its error
  pub encode : List ℕ → Text
  pub decode : Text → Result Text (List ℕ)
  -- `BigUint`: `bits`, `from_bytes_be`, `modpow`, `to_bytes_be`
  pub bits : ℕ → ℕ
  pub from_bytes_be : List ℕ → ℕ
  pub modpow : ℕ → ℕ → ℕ → ℕ
  pub to_bytes_be : ℕ → List ℕ

-- Hashing by parts is hashing the whole, and `decode` undoes `encode`.
pub record HashesByParts (C : Crypto) (sha512 : List ℕ → List ℕ) : Type 0 where
  pub absorbed : C.Hasher → List ℕ
  pub absorbed-fresh : absorbed C.fresh ≡ []
  pub absorbed-update :
      (h : C.Hasher) (bytes : List ℕ) → absorbed (C.update h bytes) ≡ absorbed h ++ bytes
  pub finalize_lem : (h : C.Hasher) → C.finalize h ≡ sha512 (absorbed h)

-- A residue modulo `n` is below `n`, and a number below `n` has no more bytes than `n`.
pub record FitsModulus (C : Crypto) : Type 0 where
  pub modpow-lt : (b e n : ℕ) → 0 < n → C.modpow b e n < n
  pub length-to_bytes_be : (x n : ℕ) → x < n → length (C.to_bytes_be x) ≤ (C.bits n + 7) / 8
