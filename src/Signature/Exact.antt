-- ===== src/Signature/Exact.antt =====
-- src/core.rs, `verify_signature`: exactly which decrypted blocks are accepted, and that no input
-- makes it panic.
use embuer.Base.{
  ℕ, suc, ◌+◌, ◌-◌, ◌≤◌, ◌<◌, List, [], ◌∷◌, ◌++◌, ◌≡◌, ◌≢◌, ◌↔◌, refl, sym, ap, ◌∙◌, true, false,
  Result, ok, err, ◌==◌, ==→eq, ==_refl, arith, length, take, drop, replicate, length-append,
  length-replicate, length-take, length-drop, append-take-drop, take-append, drop-append,
  append_assoc, Bool-cases, inl, inr,
}
use embuer.Text.{Text, text_eq}
use embuer.Text.Laws.{text_eq→eq, text_eq_refl}
use embuer.Crypto.{Crypto, FitsModulus}
use embuer.Signature.{
  skip_padding, compare_hash, full_padded, returned, panicked, PublicKey, key_size, wrong_length,
  verify_decoded, verify_signature,
}
use embuer.Signature.Shape.{
  run, skip_padding-run, run-split, run-replicate, drop-drop, byte_at, byte_at-drop, byte_at-append,
}
use embuer.Signature.Safe.{judge, judge_hash, check_block-judge}

-- What is accepted: 00 01, any number of bytes FF, 00, any nineteen bytes where the `DigestInfo`
-- belongs, the hash, and any bytes behind it.
abbrev pub IsBlock : List ℕ → List ℕ → Type 0
IsBlock hash padded =
    (k : ℕ) × (info : List ℕ) × (rest : List ℕ) × (length info ≡ 19)
    × (padded ≡ (0 ∷ 1 ∷ replicate k 0xff) ++ 0 ∷ (info ++ (hash ++ rest)))

-- The facts that the checks establish.
record Passed (hash padded : List ℕ) (sep : ℕ) : Type 0 where
  first : byte_at padded 0 0 ≡ true
  second : byte_at padded 1 1 ≡ true
  separator : byte_at padded sep 0 ≡ true
  fits : sep + 20 + length hash ≤ length padded
  same : text_eq (take (length hash) (drop (suc sep + 19) padded)) hash ≡ true

module _ (C : Crypto) (padded hash : List ℕ) (hash_hex : Text) where
  judge-Passed :
      judge C padded hash hash_hex ≡ ok tt → Passed hash padded (skip_padding (drop 2 padded) 2)
  unfolding judge judge_hash compare_hash
  judge-Passed h = ground arith

  Passed-judge :
      Passed hash padded (skip_padding (drop 2 padded) 2) → judge C padded hash hash_hex ≡ ok tt
  unfolding judge judge_hash compare_hash
  Passed-judge p = ground arith

Passed-IsBlock :
    (hash padded : List ℕ)
    → Passed hash padded (skip_padding (drop 2 padded) 2)
    → IsBlock hash padded
Passed-IsBlock hash padded p =
    let bs = drop 2 padded in
    let k = run bs in
    let sep = skip_padding bs 2 in
    let e : sep ≡ 2 + k = skip_padding-run bs 2 in
    let tail = drop (suc sep) padded in
    let t2 = drop (suc sep + 19) padded in
    let at_info : drop 19 tail ≡ t2 = drop-drop 19 (suc sep) (suc sep + 19) padded refl in
    let at_hash : t2 ≡ hash ++ drop (length hash) t2 =
      sym (append-take-drop (length hash) t2)
      ∙ ap (λ h. h ++ drop (length hash) t2) (text_eq→eq _ hash p.same) in
    let split_tail : tail ≡ take 19 tail ++ (hash ++ drop (length hash) t2) =
      sym (append-take-drop 19 tail) ∙ ap (λ t. take 19 tail ++ t) (at_info ∙ at_hash) in
    let at_sep : drop k bs ≡ 0 ∷ tail =
      drop-drop k 2 sep padded (sym e) ∙ byte_at-drop padded sep 0 p.separator in
    let split_bs : bs ≡ replicate k 0xff ++ 0 ∷ tail =
      run-split bs ∙ ap (λ t. replicate k 0xff ++ t) at_sep in
    let front : padded ≡ 0 ∷ 1 ∷ bs =
      byte_at-drop padded 0 0 p.first ∙ ap (λ t. 0 ∷ t) (byte_at-drop padded 1 1 p.second) in
    (
      k,
      take 19 tail,
      drop (length hash) t2,
      length-take 19 tail (
          let l : length tail ≡ length padded - suc sep = length-drop (suc sep) padded in
          let f = p.fits in omega arith),
      front
          ∙ ap (λ t. 0 ∷ 1 ∷ t) split_bs
          ∙ ap (λ t. 0 ∷ 1 ∷ (replicate k 0xff ++ 0 ∷ t)) split_tail,
    )

drop_past : (xs ys : List ℕ) (n : ℕ) → length xs ≡ n → drop n (xs ++ ys) ≡ ys
drop_past xs ys n e = rw (← e) (drop-append xs ys)

module _ (r info hash rest : List ℕ) (n : length info ≡ 19) where
  abbrev block : List ℕ
  block = (0 ∷ 1 ∷ r) ++ 0 ∷ (info ++ (hash ++ rest))

  drop-block : drop (suc (length (0 ∷ 1 ∷ r)) + 19) block ≡ hash ++ rest
  drop-block =
      let tail = info ++ (hash ++ rest) in
      let at_tail : drop (suc (length (0 ∷ 1 ∷ r))) block ≡ tail =
        ap (λ t. drop (suc (length (0 ∷ 1 ∷ r))) t) (sym (append_assoc (0 ∷ 1 ∷ r) (0 ∷ []) tail))
        ∙ drop_past ((0 ∷ 1 ∷ r) ++ 0 ∷ []) tail (suc (length (0 ∷ 1 ∷ r)))
            (omega (arith, length-append r (0 ∷ []))) in
      sym (drop-drop 19 (suc (length (0 ∷ 1 ∷ r))) _ block refl)
      ∙ ap (λ t. drop 19 t) at_tail
      ∙ drop_past info (hash ++ rest) 19 n

  block-Passed : Passed hash block (length (0 ∷ 1 ∷ r))
  unfolding byte_at
  block-Passed = record {
    first = refl;
    second = refl;
    separator = byte_at-append (0 ∷ 1 ∷ r) 0 (info ++ (hash ++ rest));
    fits = omega (
      arith,
      length-append r (0 ∷ (info ++ (hash ++ rest))),
      length-append info (hash ++ rest),
      length-append hash rest,
    );
    same = rw (drop-block, take-append) (text_eq_refl hash);
  }

IsBlock-Passed :
    (hash padded : List ℕ)
    → IsBlock hash padded
    → Passed hash padded (skip_padding (drop 2 padded) 2)
IsBlock-Passed hash padded (k, info, rest, n, e) =
    let r = replicate k 0xff in
    let tail = info ++ (hash ++ rest) in
    let at : skip_padding (r ++ 0 ∷ tail) 2 ≡ length (0 ∷ 1 ∷ r) =
      skip_padding-run (r ++ 0 ∷ tail) 2
      ∙ omega (arith, run-replicate k tail, length-replicate {A = ℕ} k 0xff) in
    rw e (rw at (block-Passed r info hash rest n))

-- The checks accept a decrypted block exactly when it is 00 01, any number of bytes FF, 00, any
-- nineteen bytes, the hash, and any bytes behind it.
judge-exact :
    (C : Crypto) (padded hash : List ℕ) (hash_hex : Text)
    → (judge C padded hash hash_hex ≡ ok tt) ↔ IsBlock hash padded
judge-exact C padded hash hash_hex = (
  λ h. Passed-IsBlock hash padded (judge-Passed C padded hash hash_hex h),
  λ b. Passed-judge C padded hash hash_hex (IsBlock-Passed hash padded b),
)

-- The number is given the key's width: the copy's lengths agree when it has no more bytes.
full_padded-returned :
    (width : ℕ) (bytes : List ℕ)
    → length bytes ≤ width
    → full_padded width bytes ≡ returned (replicate (width - length bytes) 0 ++ bytes)
unfolding full_padded
full_padded-returned width bytes h = ground arith

-- What `modpow` gives, at the width of the key.
abbrev pub decrypted : Crypto → PublicKey → List ℕ → List ℕ
decrypted C key signature =
    let bytes = C.to_bytes_be (C.modpow (C.from_bytes_be signature) key.e key.n) in
    replicate (key_size C key - length bytes) 0 ++ bytes

module _ (C : Crypto) (F : FitsModulus C) (key : PublicKey) (signature : List ℕ)
    (pos : 0 < key.n) where
  full_padded-decrypted :
      full_padded
        (key_size C key)
        (C.to_bytes_be (C.modpow (C.from_bytes_be signature) key.e key.n))
      ≡ returned (decrypted C key signature)
  full_padded-decrypted =
      full_padded-returned _ _
        (unfold key_size in F.length-to_bytes_be _ key.n (F.modpow-lt _ key.e key.n pos))

  verify_decoded-checks :
      (hash : List ℕ) (hash_hex : Text)
      → (length signature == key_size C key) ≡ true
      → verify_decoded C key signature hash_hex hash
        ≡ returned (judge C (decrypted C key signature) hash hash_hex)
  unfolding verify_decoded
  verify_decoded-checks hash hash_hex t =
      rw (t, full_padded-decrypted) (check_block-judge C (decrypted C key signature) hash hash_hex)

  verify_decoded-refuses :
      (hash : List ℕ) (hash_hex : Text)
      → (length signature == key_size C key) ≡ false
      → verify_decoded C key signature hash_hex hash
        ≡ returned (err (wrong_length (length signature) (key_size C key)))
  unfolding verify_decoded
  verify_decoded-refuses hash hash_hex t = rw t

  verify_decoded-exact :
      (hash : List ℕ) (hash_hex : Text)
      → (verify_decoded C key signature hash_hex hash ≡ returned (ok tt))
        ↔ ((length signature ≡ key_size C key) × IsBlock hash (decrypted C key signature))
  verify_decoded-exact hash hash_hex =
      let block = decrypted C key signature in
      let exact = judge-exact C block hash hash_hex in
      (
        λ h. elim (Bool-cases (length signature == key_size C key)) [
          | inl t ↦
              let c = verify_decoded-checks hash hash_hex t in
              let passed : judge C block hash hash_hex ≡ ok tt = cc in (==→eq _ _ t, exact.0 passed)
          | inr t ↦ cc (verify_decoded-refuses hash hash_hex t)
        ],
        λ (l, b).
            verify_decoded-checks hash hash_hex (rw l (==_refl (key_size C key)))
            ∙ ap returned (exact.1 b),
      )

  -- With a modulus that is not 0 and the documented bounds of `modpow` and `to_bytes_be`, a
  -- signature is accepted for the text of a hash exactly when it is as long as the key and the
  -- decrypted block, filled up with zeros in front, is 00 01, any number of bytes FF, 00, any
  -- nineteen bytes, the hash, and any bytes behind it.
  pub verify_signature-exact :
      (hash : List ℕ) (hash_hex : Text)
      → C.decode hash_hex ≡ ok hash
      → (verify_signature C key signature hash_hex ≡ returned (ok tt))
        ↔ ((length signature ≡ key_size C key) × IsBlock hash (decrypted C key signature))
  unfolding verify_signature
  verify_signature-exact hash hash_hex d =
      rw (d, verify_signature) (verify_decoded-exact hash hash_hex)

  -- With a modulus that is not 0 and the documented bounds of `modpow` and `to_bytes_be`, the
  -- verification does not panic, whatever the signature and the text of the hash: the copy into the
  -- block is of equal lengths, and no index or slice of the block is out of range.
  pub verify_signature-ne-panicked :
      (hash_hex : Text) → verify_signature C key signature hash_hex ≢ panicked
  unfolding verify_signature
  verify_signature-ne-panicked hash_hex = go (C.decode hash_hex) refl
    where
      go :
          (d : Result Text (List ℕ))
          → C.decode hash_hex ≡ d
          → verify_signature C key signature hash_hex ≢ panicked
      go (err x) d h = cc
      go (ok hash) d h = elim (Bool-cases (length signature == key_size C key)) [
        | inl t ↦ cc (verify_decoded-checks hash hash_hex t)
        | inr t ↦ cc (verify_decoded-refuses hash hash_hex t)
      ]
