-- ===== src/Stream.antt =====
-- Streams of bytes: what `poll_read` of an `AsyncRead` gives, and `tokio::io::copy`.
pub mod Hashing
pub mod Progress
pub mod Keeps
pub mod Draws
use embuer.Base.{ℕ, zero, suc, List, [], ◌∷◌, ◌++◌}
use embuer.Text.{Text}

-- The bytes that a read adds to the buffer (none at the end of the stream), an error, or not yet.
pub data Poll : Type 0 where
  ready : List ℕ → Poll
  failed : Text → Poll
  pending : Poll

-- A reader is a state with its `poll_read`.
abbrev pub Reader : Type 0 → Type 0
Reader S = S → Poll × S

-- A stream that is given by its polls, and is at its end after them.
abbrev pub scripted : Reader (List Poll)
scripted [] = (ready [], [])
scripted (p ∷ ps) = (p, ps)

-- One round of `copy`, with the rounds behind it.
abbrev pub copy_on : {S : Type 0} → (S → List ℕ × S) → Poll × S → List ℕ × S
copy_on next (ready [], s) = ([], s)
copy_on next (ready (b ∷ bytes), s) = let (rest, t) = next s in (b ∷ bytes ++ rest, t)
copy_on next (failed e, s) = ([], s)
copy_on next (pending, s) = next s

-- `copy` polls until the end, an error, or `n` polls after which the other side takes no more.
unfoldable pub copy : {S : Type 0} → Reader S → ℕ → S → List ℕ × S
copy poll_read zero s = ([], s)
copy poll_read (suc n) s = copy_on (copy poll_read n) (poll_read s)
