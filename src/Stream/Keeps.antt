-- ===== src/Stream/Keeps.antt =====
-- What each poll of a reader keeps, a copy keeps.
use embuer.Base.{ℕ, zero, suc, List, [], ◌∷◌}
use embuer.Stream.{Poll, ready, failed, pending, Reader, copy_on, copy}

module _ {S : Type 0} (P : S → Type 0) where
  copy_on-keeps :
      (more : S → List ℕ × S) (p : Poll) (s : S)
      → ((t : S) → P t → P (more t).1)
      → P s
      → P (copy_on more (p, s)).1
  copy_on-keeps more (ready []) s k h = h
  copy_on-keeps more (ready (b ∷ bytes)) s k h = k s h
  copy_on-keeps more (failed e) s k h = h
  copy_on-keeps more pending s k h = k s h

  pub copy-keeps :
      (poll_read : Reader S)
      → ((s : S) → P s → P (poll_read s).1)
      → (n : ℕ) (s : S) → P s
      → P (copy poll_read n s).1
  unfolding copy
  copy-keeps poll_read k zero s h = h
  copy-keeps poll_read k (suc n) s h =
      copy_on-keeps (copy poll_read n) (poll_read s).0 (poll_read s).1 (copy-keeps poll_read k n)
        (k s h)
