-- ===== src/Btrfs/Numbers.antt =====
-- src/btrfs.rs: the numbers that `btrfs` prints are the numbers that are read.
use embuer.Base.{ℕ, ◌≤◌, List, [], ◌∷◌, ◌++◌, ◌≡◌, refl, ok, err}
use embuer.Text.{Text}
use embuer.Text.Number.{ParseIntError, u64_max, parse_u64, show}
use embuer.Text.Number.RoundTrip.{parse_u64-show}
use embuer.Error.{ServiceError}
use embuer.Btrfs.Query.{first_number}

-- Words of which none is a `u64`.
pub data NoNumbers : List Text → Type 0 where
  nothing : NoNumbers []
  word :
      (w : Text) (ws : List Text) (e : ParseIntError)
      → parse_u64 w ≡ err e
      → NoNumbers ws
      → NoNumbers (w ∷ ws)

-- In a line such as "ID 256 gen 9 top level 5", where words that are not numbers stand before the
-- printed number of a subvolume, that number is what `subvolume_get_default` takes, whatever
-- follows.
pub first_number-show :
    (missing : ServiceError) (before : List Text) (id : ℕ) (after : List Text)
    → NoNumbers before
    → id ≤ u64_max
    → first_number missing (before ++ show id ∷ after) ≡ ok id
unfolding first_number
first_number-show missing _ id after nothing h = rw (first_number, parse_u64-show id h) refl
first_number-show missing _ id after (word w ws e f more) h =
    rw (first_number, f) (first_number-show missing ws id after more h)
