-- ===== src/Signature/Safe.antt =====
-- src/core.rs, `verify_signature`: the checks on the decrypted block never read out of range.
use embuer.Base.{
  ℕ, zero, suc, ◌+◌, ◌-◌, ◌≤◌, ◌<◌, List, [], ◌∷◌, ◌≡◌, refl, Bool, true, false, Result, err, ltb,
  leb, ◌||◌, ◌&&◌, not, if◌then◌else◌, length, take, drop, arith, Bool-cases, inl, inr,
}
use embuer.Text.{Text, text}
use embuer.Error.{ServiceError}
use embuer.Crypto.{Crypto}
use embuer.Signature.{
  returned, or_run, if_run, index, differs, slice, skip_padding, invalid, compare_hash, check_hash,
  check_block,
}
use embuer.Signature.Shape.{byte_at}

pub index-in_range : (bs : List ℕ) (i : ℕ) → i < length bs → (b : ℕ) × (index bs i ≡ returned b)
unfolding index
index-in_range [] i h = absurd (omega arith)
index-in_range (c ∷ bs) zero h = (c, refl)
index-in_range (c ∷ bs) (suc i) h = index-in_range bs i (omega arith)

pub differs-byte_at :
    (bs : List ℕ) (i b : ℕ) → i < length bs → differs bs i b ≡ returned (not (byte_at bs i b))
unfolding differs index byte_at
differs-byte_at [] i b h = absurd (omega arith)
differs-byte_at (c ∷ bs) zero b h = refl
differs-byte_at (c ∷ bs) (suc i) b h = differs-byte_at bs i b (omega arith)

pub slice-take :
    (bs : List ℕ) (i n j : ℕ)
    → i + n ≡ j
    → j ≤ length bs
    → slice bs i j ≡ returned (take n (drop i bs))
unfolding slice
slice-take bs i n j e h =
    let m : j - i ≡ n = omega arith in
    let b : (leb i j && leb j (length bs)) ≡ true = ground arith in rw (b, m) refl

pub or_run-returned : (a b : Bool) → or_run (returned a) (returned b) ≡ returned (a || b)
or_run-returned true b = refl
or_run-returned false b = refl

pub if_run-returned :
    {A : Type 0} (c : Bool) (x y : A)
    → if_run (returned c) (returned x) (returned y) ≡ returned (if c then x else y)
if_run-returned true x y = refl
if_run-returned false x y = refl

-- The checks without panics, with what they read in range.
module _ (C : Crypto) (padded hash : List ℕ) (hash_hex : Text) where
  unfoldable pub judge_hash : ℕ → Result ServiceError (Unit {0})
  judge_hash digest_start =
      if ltb (length padded) (digest_start + 19 + length hash)
      then err (invalid (text "not enough data for DigestInfo and hash"))
      else compare_hash C hash hash_hex (take (length hash) (drop (digest_start + 19) padded))

  unfoldable pub judge : Result ServiceError (Unit {0})
  unfolding judge_hash
  judge =
      let sep_idx = skip_padding (drop 2 padded) 2 in
      if ltb (length padded) (19 + length hash)
      then err (invalid (text "decrypted value too short"))
      else if not (byte_at padded 0 0x00) || not (byte_at padded 1 0x01)
      then err (invalid (text "missing PKCS#1 v1.5 padding prefix"))
      else if leb (length padded) sep_idx || not (byte_at padded sep_idx 0x00)
      then err (invalid (text "missing separator after padding"))
      else judge_hash (suc sep_idx)

  pub check_hash-judge :
      (digest_start : ℕ)
      → check_hash C padded digest_start hash hash_hex ≡ returned (judge_hash digest_start)
  unfolding check_hash judge_hash
  check_hash-judge d = elim (Bool-cases (ltb (length padded) (d + 19 + length hash))) [
    | inl t ↦ rw t refl
    | inr f ↦
        let fits : d + 19 + length hash ≤ length padded = ground arith in
        let info = slice-take padded d 19 (d + 19) refl (omega arith) in
        let rest = slice-take padded (d + 19) (length hash) (d + 19 + length hash) refl fits in
        rw (f, info, rest) refl
  ]

  module _ (long : 19 + length hash ≤ length padded) where
    pub prefix_read :
        or_run (differs padded 0 0) (differs padded 1 1)
        ≡ returned (not (byte_at padded 0 0) || not (byte_at padded 1 1))
    prefix_read =
        rw (differs-byte_at padded 0 0 (omega arith), differs-byte_at padded 1 1 (omega arith))
          (or_run-returned _ _)

  pub separator_read :
      (sep : ℕ)
      → or_run (returned (leb (length padded) sep)) (differs padded sep 0)
        ≡ returned (leb (length padded) sep || not (byte_at padded sep 0))
  separator_read sep = elim (Bool-cases (leb (length padded) sep)) [
    | inl t ↦ rw t refl
    | inr f ↦ let r = differs-byte_at padded sep 0 (ground arith) in rw (f, r) refl
  ]

  -- The checks on a decrypted block return what they return without panics.
  pub check_block-judge : check_block C padded hash hash_hex ≡ returned judge
  unfolding check_block judge
  check_block-judge = elim (Bool-cases (ltb (length padded) (19 + length hash))) [
    | inl t ↦ rw t refl
    | inr f ↦
        let long : 19 + length hash ≤ length padded = ground arith in
        let sep = skip_padding (drop 2 padded) 2 in
        rw
          (
            f,
            prefix_read long,
            separator_read sep,
            check_hash-judge (suc sep),
            if_run-returned,
            if_run-returned,
          )
          refl
  ]
