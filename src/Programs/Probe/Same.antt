-- ===== src/Programs/Probe/Same.antt =====
-- src/bin/test-signature.rs, `verify_signature`, against that of src/core.rs.
use embuer.Base.{
  ℕ, suc, ◌+◌, ◌≤◌, List, ◌≡◌, refl, sym, ap, ◌∙◌, Result, ok, err, ltb, ◌==◌, if◌then◌else◌,
  length, take, drop, arith, Bool-cases, inl, inr,
}
use embuer.Text.{Text, text, text_eq}
use embuer.Crypto.{Crypto}
use embuer.Signature.{
  Run, returned, panicked, PublicKey, then_run, index, slice, skip_padding, invalid, compare_hash,
  full_padded, key_size, check_block,
}
use embuer.Signature as core
use embuer.Signature.Safe.{
  judge, judge_hash, index-in_range, slice-take, prefix_read, separator_read, if_run-returned,
  check_block-judge,
}
use embuer.Programs.Probe.Verify.{
  refuse, compare, check_digest, wrong_prefix, wrong_separator, check_padded, verify_decoded,
  verify_signature,
}

module _ (C : Crypto) (hash : List ℕ) (hash_hex : Text) where
  compare-returned :
      (extracted : List ℕ)
      → compare C hash hash_hex extracted ≡ returned (compare_hash C hash hash_hex extracted)
  unfolding compare compare_hash refuse invalid
  compare-returned extracted = elim (Bool-cases (text_eq extracted hash)) [
    | inl t ↦ rw t refl
    | inr f ↦ rw f refl
  ]

  module _ (padded : List ℕ) where
    check_digest-judge :
        (d : ℕ)
        → check_digest C hash hash_hex padded d ≡ returned (judge_hash C padded hash hash_hex d)
    unfolding check_digest judge_hash refuse invalid
    check_digest-judge d = elim (Bool-cases (ltb (length padded) (d + 19 + length hash))) [
      | inl t ↦ rw t refl
      | inr f ↦
          let fits : d + 19 + length hash ≤ length padded = ground arith in
          let info = slice-take padded d 19 (d + 19) refl (omega arith) in
          let rest = slice-take padded (d + 19) (length hash) (d + 19 + length hash) refl fits in
          rw (f, info, rest) (compare-returned _)
    ]

    -- What is printed of the block is in range.
    first_50 : (n : ℕ) → n ≤ length padded → slice padded 0 n ≡ returned (take n padded)
    first_50 n h = slice-take padded 0 n n (omega arith) h

    wrong_prefix-returned :
        2 ≤ length padded
        → wrong_prefix C hash hash_hex padded ≡ refuse (text "missing PKCS#1 v1.5 padding prefix")
    unfolding wrong_prefix
    wrong_prefix-returned h =
        let (a, p) = index-in_range padded 0 (omega arith) in
        let (b, q) = index-in_range padded 1 (omega arith) in rw (p, q) refl

    wrong_separator-returned :
        (sep : ℕ)
        → wrong_separator C hash hash_hex padded sep
          ≡ refuse (text "missing separator after padding")
    unfolding wrong_separator
    wrong_separator-returned sep = elim (Bool-cases (ltb sep (length padded))) [
      | inl t ↦ let (a, p) = index-in_range padded sep (ground arith) in rw (t, p) refl
      | inr f ↦ rw f refl
    ]

    shown-in_range : (if ltb (length padded) 50 then length padded else 50) ≤ length padded
    shown-in_range = ground arith

    check_padded-judge :
        check_padded C hash hash_hex padded ≡ returned (judge C padded hash hash_hex)
    unfolding check_padded judge refuse invalid
    check_padded-judge =
        let read = first_50 _ shown-in_range in
        elim (Bool-cases (ltb (length padded) (19 + length hash))) [
          | inl t ↦ rw (read, t) refl
          | inr f ↦
              let long : 19 + length hash ≤ length padded = ground arith in
              let sep = skip_padding (drop 2 padded) 2 in
              rw
                (
                  read,
                  f,
                  prefix_read C padded hash hash_hex long,
                  separator_read C padded hash hash_hex sep,
                  check_digest-judge (suc sep),
                  wrong_prefix-returned (omega arith),
                  wrong_separator-returned sep,
                  if_run-returned,
                  if_run-returned,
                )
                refl
        ]

-- For every key, signature and text of a hash, the program's own verification ends as that of the
-- service does: in the same result, or in a panic.
pub verify_signature-core :
    (C : Crypto) (pubkey : PublicKey) (signature : List ℕ) (hash_hex : Text)
    → verify_signature C pubkey signature hash_hex
      ≡ core.verify_signature C pubkey signature hash_hex
unfolding verify_signature core.verify_signature verify_decoded core.verify_decoded
verify_signature-core C pubkey signature hash_hex = decoded (C.decode hash_hex) refl
  where
    checked :
        (hash : List ℕ) (r : Run (List ℕ))
        → then_run r (check_padded C hash hash_hex)
          ≡ then_run r (λ block. check_block C block hash hash_hex)
    checked hash panicked = refl
    checked hash (returned block) =
        check_padded-judge C hash hash_hex block ∙ sym (check_block-judge C block hash hash_hex)

    same :
        (hash : List ℕ)
        → verify_decoded C hash hash_hex pubkey signature
          ≡ core.verify_decoded C pubkey signature hash_hex hash
    same hash =
        ap
          (λ r.
            if length signature == key_size C pubkey
            then r
            else returned (err (core.wrong_length (length signature) (key_size C pubkey))))
          (checked hash _)

    decoded :
        (d : Result Text (List ℕ))
        → C.decode hash_hex ≡ d
        → verify_signature C pubkey signature hash_hex
          ≡ core.verify_signature C pubkey signature hash_hex
    decoded (err e) p = rw (p, verify_signature, core.verify_signature) refl
    decoded (ok hash) p = rw (p, verify_signature, core.verify_signature) (same hash)
