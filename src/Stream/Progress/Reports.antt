-- ===== src/Stream/Progress/Reports.antt =====
-- src/progress_stream.rs: which status updates a `ProgressReader` spawns.
use embuer.Base.{ℕ, [], ◌∷◌, ◌≡◌, Bool, true, false, if◌then◌else◌, All, All-append}
use embuer.Base.{suc, length, ◌+◌, ◌%◌, ◌^◌}
use embuer.Stream.Keeps.{copy-keeps}
use embuer.Text.{Text}
use embuer.Status.{UpdateStatus, Progress, installing}
use embuer.Stream.{Poll, ready, failed, pending, Reader, copy}
use embuer.Crypto.{Crypto}
use embuer.Stream.Hashing
use embuer.Stream.Hashing.{HashingReader}
use embuer.Stream.Progress.{Float, ProgressReader, report, advance, observe, poll_read}

-- The status of an installation from this source.
pub data IsReport (source : Text) : UpdateStatus → Type 0 where
  progress_of : (p : Progress) → IsReport source (installing source p)

-- The reader is of this source, and has spawned nothing but reports on it.
abbrev pub Reports : {S : Type 0} → Text → ProgressReader S → Type 0
Reports source r = (r.source ≡ source) × All (IsReport source) r.spawned

module _ (F : Float) {S : Type 0} (source : Text) where
  report-Reports :
      (now : ℕ) (r : ProgressReader S) → Reports source r → Reports source (report F now r)
  unfolding report
  report-Reports now r (same, all) =
      (same, All-append (IsReport source) r.spawned _ all (rw same (progress_of _, tt)))

  either-Reports :
      (b : Bool) (x y : ProgressReader S)
      → Reports source x
      → Reports source y
      → Reports source (if b then x else y)
  either-Reports true x y h k = h
  either-Reports false x y h k = k

  observe-Reports :
      (p : Poll) (now : ℕ) (r : ProgressReader S)
      → Reports source r
      → Reports source (observe F p now r)
  unfolding observe advance
  observe-Reports (ready bytes) now r h =
      let r' : ProgressReader S = record r {
        bytes_read = (r.bytes_read + length bytes) % 2 ^ 64;
      } in
      either-Reports _ _ _ (report-Reports now r' h) h
  observe-Reports (failed e) now r h = h
  observe-Reports pending now r h = h

  poll_read-Reports :
      (clock : ℕ → ℕ) (inner_poll : Reader S) (r : ProgressReader S)
      → Reports source r
      → Reports source (poll_read F clock inner_poll r).1
  unfolding poll_read
  poll_read-Reports clock inner_poll r h =
      observe-Reports (inner_poll r.inner).0 (clock (suc r.polls))
        (record r { inner = (inner_poll r.inner).1; polls = suc r.polls }) h

module _ (C : Crypto) (F : Float) {S : Type 0} (source : Text) (clock : ℕ → ℕ)
    (inner_poll : Reader S) where
  hashed-Reports :
      (p : Poll) (r : HashingReader C (ProgressReader S))
      → Reports source r.inner
      → Reports source (Hashing.observe C p r).inner
  unfolding Hashing.observe Hashing.finalize_hash
  hashed-Reports (ready []) r h = h
  hashed-Reports (ready (b ∷ bytes)) r h = h
  hashed-Reports (failed e) r h = h
  hashed-Reports pending r h = h

  -- A copy through both readers spawns nothing but reports on its source.
  pub copy-Reports :
      (n : ℕ) (r : HashingReader C (ProgressReader S))
      → Reports source r.inner
      → Reports source (copy (Hashing.poll_read C (poll_read F clock inner_poll)) n r).1.inner
  unfolding Hashing.poll_read
  copy-Reports n r h =
      copy-keeps (λ t. Reports source t.inner) (Hashing.poll_read C (poll_read F clock inner_poll))
        (λ t k.
          hashed-Reports (poll_read F clock inner_poll t.inner).0
            (record t { inner = (poll_read F clock inner_poll t.inner).1 })
            (poll_read-Reports F source clock inner_poll t.inner k))
        n r h
