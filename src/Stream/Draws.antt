-- ===== src/Stream/Draws.antt =====
-- What a copy passes on is the beginning of what its reader holds.
use embuer.Base.{ℕ, zero, suc, List, [], ◌∷◌, ◌++◌, ◌≡◌, refl, ap, ◌∙◌, append_assoc, length}
use embuer.Crypto.{Crypto}
use embuer.Stream.{Poll, ready, failed, pending, Reader, scripted, copy_on, copy}
use embuer.Stream.Hashing
use embuer.Stream.Hashing.{HashingReader, finalize_hash}
use embuer.Stream.Progress
use embuer.Stream.Progress.{Float, ProgressReader}
use embuer.Stream.Progress.Laws.{advance-inner}

abbrev pub passed : Poll → List ℕ
passed (ready bytes) = bytes
passed (failed e) = []
passed pending = []

-- `held` gives what each state of the reader still holds.
pub record Holds {S : Type 0} (poll_read : Reader S) (held : S → List ℕ) : Type 0 where
  pub at : (s : S) → held s ≡ passed (poll_read s).0 ++ held (poll_read s).1

-- All the bytes of a stream that is given by its polls.
unfoldable pub data_of : List Poll → List ℕ
data_of [] = []
data_of (p ∷ ps) = passed p ++ data_of ps

pub scripted-Holds : Holds scripted data_of
unfolding data_of
scripted-Holds = record { at = polled }
  where
    polled : (ps : List Poll) → data_of ps ≡ passed (scripted ps).0 ++ data_of (scripted ps).1
    polled [] = refl
    polled (p ∷ ps) = refl

module _ {S : Type 0} (poll_read : Reader S) (held : S → List ℕ) (h : Holds poll_read held) where
  abbrev Begins : List ℕ → List ℕ → Type 0
  Begins all bytes = (more : List ℕ) × (all ≡ bytes ++ more)

  copy_on-Begins :
      (next : S → List ℕ × S) (all : List ℕ) (p : Poll) (s : S)
      → ((t : S) → Begins (held t) (next t).0)
      → all ≡ passed p ++ held s
      → Begins all (copy_on next (p, s)).0
  copy_on-Begins next all (ready []) s k e = (all, refl)
  copy_on-Begins next all (ready (b ∷ bytes)) s k e =
      let (more, r) = k s in
      (more, e ∙ ap (λ t. (b ∷ bytes) ++ t) r ∙ sym_assoc (b ∷ bytes) (next s).0 more)
    where
      sym_assoc : (x y z : List ℕ) → x ++ (y ++ z) ≡ (x ++ y) ++ z
      sym_assoc x y z = rw (append_assoc x y z) refl
  copy_on-Begins next all (failed x) s k e = (all, refl)
  copy_on-Begins next all pending s k e = let (more, r) = k s in (more, e ∙ r)

  pub copy-Begins : (n : ℕ) (s : S) → (more : List ℕ) × (held s ≡ (copy poll_read n s).0 ++ more)
  unfolding copy
  copy-Begins zero s = (held s, refl)
  copy-Begins (suc n) s =
      copy_on-Begins (copy poll_read n) (held s) (poll_read s).0 (poll_read s).1 (copy-Begins n)
        (h.at s)

module _ {S : Type 0} (inner_poll : Reader S) (held : S → List ℕ) (h : Holds inner_poll held) where
  pub hashing-Holds : (C : Crypto) → Holds (Hashing.poll_read C inner_poll) (λ r. held r.inner)
  unfolding Hashing.poll_read Hashing.observe finalize_hash
  hashing-Holds C = record {
    at = λ r.
        h.at r.inner
        ∙ ap (λ s. passed (inner_poll r.inner).0 ++ held s)
            (kept (inner_poll r.inner).0 (record r { inner = (inner_poll r.inner).1 }));
  }
    where
      kept : (p : Poll) (r : HashingReader C S) → r.inner ≡ (Hashing.observe C p r).inner
      kept (ready []) r = refl
      kept (ready (b ∷ bytes)) r = refl
      kept (failed e) r = refl
      kept pending r = refl

  pub progress-Holds :
      (F : Float) (clock : ℕ → ℕ)
      → Holds (Progress.poll_read F clock inner_poll) (λ r. held r.inner)
  unfolding Progress.poll_read Progress.observe
  progress-Holds F clock = record {
    at = λ r.
        h.at r.inner
        ∙ ap (λ s. passed (inner_poll r.inner).0 ++ held s)
            (kept (inner_poll r.inner).0 (clock (suc r.polls))
              (record r { inner = (inner_poll r.inner).1; polls = suc r.polls }));
  }
    where
      kept :
          (p : Poll) (now : ℕ) (r : ProgressReader S) → r.inner ≡ (Progress.observe F p now r).inner
      kept (ready bytes) now r = rw (advance-inner F now (length bytes) r) refl
      kept (failed e) now r = refl
      kept pending now r = refl
