-- ===== src/Stream/Hashing/Laws.antt =====
-- src/hash_stream.rs: the hash that a copied stream leaves.
use embuer.Base.{
  ℕ, zero, suc, List, [], ◌∷◌, ◌++◌, ◌≡◌, refl, sym, ap, ◌∙◌, ◌⊎◌, inl, inr, Option, none, some,
  append_assoc, append-nil,
}
use embuer.Text.{Text}
use embuer.Crypto.{Crypto, HashesByParts}
use embuer.Stream.{Poll, ready, failed, pending, Reader, copy_on, copy}
use embuer.Stream.Hashing.{HashingReader, new, finalize_hash, observe, poll_read}

-- Nothing is said yet, or the hash of these bytes.
abbrev pub HashOf : Crypto → (List ℕ → List ℕ) → List ℕ → Option Text → Type 0
HashOf C sha512 bytes result = (result ≡ none) ⊎ (result ≡ some (C.encode (sha512 bytes)))

module _ (C : Crypto) (sha512 : List ℕ → List ℕ) (L : HashesByParts C sha512) where
  finalize_hash-HashOf :
      {S : Type 0} (r : HashingReader C S) (bytes : List ℕ)
      → L.absorbed r.hasher ≡ bytes
      → HashOf C sha512 (bytes ++ []) (finalize_hash C r).hash_result
  unfolding finalize_hash
  finalize_hash-HashOf r bytes e = inr (
      ap (λ h. some (C.encode h))
        (L.finalize_lem r.hasher ∙ ap sha512 (e ∙ sym (append-nil bytes))))

  module _ {S : Type 0} (inner_poll : Reader S) where
    -- What is claimed of the rounds `next`, at every reader without a result.
    abbrev Keeps : (HashingReader C S → List ℕ × HashingReader C S) → Type 0
    Keeps next =
        (r : HashingReader C S) (seen : List ℕ)
        → L.absorbed r.hasher ≡ seen
        → r.hash_result ≡ none
        → HashOf C sha512 (seen ++ (next r).0) (next r).1.hash_result

    copy_on-Keeps :
        (next : HashingReader C S → List ℕ × HashingReader C S)
        → Keeps next
        → (r : HashingReader C S) (seen : List ℕ) (p : Poll) → L.absorbed r.hasher ≡ seen
        → r.hash_result ≡ none
        → HashOf C sha512
            (seen ++ (copy_on next (p, observe C p r)).0)
            (copy_on next (p, observe C p r)).1.hash_result
    unfolding observe
    copy_on-Keeps next k r seen (ready []) a h = finalize_hash-HashOf r seen a
    copy_on-Keeps next k r seen (ready (b ∷ bytes)) a h =
        let r' : HashingReader C S = record r { hasher = C.update r.hasher (b ∷ bytes) } in
        rw (append_assoc seen (b ∷ bytes) (next r').0) at (
          k r' (seen ++ (b ∷ bytes))
            (L.absorbed-update r.hasher (b ∷ bytes) ∙ ap (λ t. t ++ (b ∷ bytes)) a) h)
    copy_on-Keeps next k r seen (failed e) a h = finalize_hash-HashOf r seen a
    copy_on-Keeps next k r seen pending a h = k r seen a h

    copy-Keeps : (n : ℕ) → Keeps (copy (poll_read C inner_poll) n)
    unfolding copy poll_read
    copy-Keeps zero r seen a h = inl h
    copy-Keeps (suc n) r seen a h =
        copy_on-Keeps (copy (poll_read C inner_poll) n) (copy-Keeps n)
          (record r { inner = (inner_poll r.inner).1 }) seen (inner_poll r.inner).0 a h

    -- A stream that was copied through a new hashing reader leaves no hash, or the hash of exactly
    -- the bytes that were passed on, whether it ended or broke off with an error.
    pub copy-HashOf :
        (n : ℕ) (inner : S)
        → HashOf C sha512
            (copy (poll_read C inner_poll) n (new C inner)).0
            (copy (poll_read C inner_poll) n (new C inner)).1.hash_result
    unfolding new
    copy-HashOf n inner = copy-Keeps n (new C inner) [] L.absorbed-fresh refl
