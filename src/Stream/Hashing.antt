-- ===== src/Stream/Hashing.antt =====
-- src/hash_stream.rs: a reader that hashes what it passes on. The lock of the result is free
-- whenever the reader writes it, since the result is read only after the stream is done.
pub mod Laws
use embuer.Base.{List, [], ◌∷◌, Option, none, some}
use embuer.Text.{Text}
use embuer.Crypto.{Crypto}
use embuer.Stream.{Poll, ready, failed, pending, Reader}

pub record HashingReader (C : Crypto) (S : Type 0) : Type 0 where
  pub inner : S
  pub hasher : C.Hasher
  pub hash_result : Option Text

module _ (C : Crypto) {S : Type 0} where
  unfoldable pub new : S → HashingReader C S
  new inner = record { inner = inner; hasher = C.fresh; hash_result = none }

  -- `finalize` on the hasher, which starts anew.
  unfoldable pub finalize_hash : HashingReader C S → HashingReader C S
  finalize_hash r = record r {
    hasher = C.fresh;
    hash_result = some (C.encode (C.finalize r.hasher));
  }

  unfoldable pub get_hash : HashingReader C S → Option Text × HashingReader C S
  get_hash r =
      let hex_hash = C.encode (C.finalize r.hasher) in
      (some hex_hash, record r { hasher = C.fresh; hash_result = some hex_hash })

  -- The hash after a poll of the inner reader.
  unfoldable pub observe : Poll → HashingReader C S → HashingReader C S
  unfolding finalize_hash
  observe (ready []) r = finalize_hash r
  observe (ready (b ∷ bytes)) r = record r { hasher = C.update r.hasher (b ∷ bytes) }
  observe (failed e) r = finalize_hash r
  observe pending r = r

  unfoldable pub poll_read : Reader S → Reader (HashingReader C S)
  unfolding observe
  poll_read inner_poll r =
      let (p, s) = inner_poll r.inner in (p, observe p (record r { inner = s }))
