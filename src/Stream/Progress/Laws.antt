-- ===== src/Stream/Progress/Laws.antt =====
-- src/progress_stream.rs: what a copy through a `ProgressReader` passes on, and what it counts.
use embuer.Base.{
  ℕ, zero, suc, ◌+◌, ◌%◌, ◌^◌, ◌<◌, List, [], ◌∷◌, ◌++◌, ◌≡◌, refl, ap, ◌∙◌, Bool, true, false,
  length, if◌then◌else◌, arith, length-append,
}
use embuer.Stream.{Poll, ready, failed, pending, Reader, copy_on, copy}
use embuer.Stream.Progress.{Float, ProgressReader, report, advance, observe, poll_read}

-- The result of a copy through the reader, against that of a copy without it.
pub record Passes {S : Type 0} (r : ProgressReader S) (through : List ℕ × ProgressReader S)
    (plain : List ℕ × S) : Type 0 where
  pub bytes : through.0 ≡ plain.0
  pub inner : through.1.inner ≡ plain.1
  pub counted : through.1.bytes_read ≡ (r.bytes_read + length through.0) % 2 ^ 64

module _ {S : Type 0} (v : ProgressReader S → Type 0) where
  pub either : (b : Bool) (x y : ProgressReader S) → v x → v y → v (if b then x else y)
  either true x y h k = h
  either false x y h k = k

module _ (F : Float) {S : Type 0} where
  advance-bytes_read :
      (now k : ℕ) (r : ProgressReader S)
      → (advance F now k r).bytes_read ≡ (r.bytes_read + k) % 2 ^ 64
  unfolding advance report
  advance-bytes_read now k r =
      either (λ x. x.bytes_read ≡ (r.bytes_read + k) % 2 ^ 64) _ _ _ refl refl

  pub advance-inner : (now k : ℕ) (r : ProgressReader S) → (advance F now k r).inner ≡ r.inner
  unfolding advance report
  advance-inner now k r = either (λ x. x.inner ≡ r.inner) _ _ _ refl refl

  module _ (clock : ℕ → ℕ) (inner_poll : Reader S) where
    abbrev PassesOn : (ProgressReader S → List ℕ × ProgressReader S) → (S → List ℕ × S) → Type 0
    PassesOn next plain =
        (r : ProgressReader S) → r.bytes_read < 2 ^ 64 → Passes r (next r) (plain r.inner)

    copy_on-Passes :
        (next : ProgressReader S → List ℕ × ProgressReader S) (plain : S → List ℕ × S)
        → PassesOn next plain
        → (r : ProgressReader S) (p : Poll) (now : ℕ) → r.bytes_read < 2 ^ 64
        → Passes r (copy_on next (p, observe F p now r)) (copy_on plain (p, r.inner))
    unfolding observe
    copy_on-Passes next plain k r (failed e) now h = record {
      bytes = refl;
      inner = refl;
      counted = omega arith;
    }
    copy_on-Passes next plain k r pending now h = k r h
    copy_on-Passes next plain k r (ready []) now h = record {
      bytes = refl;
      inner = advance-inner now 0 r;
      counted = advance-bytes_read now 0 r;
    }
    copy_on-Passes next plain k r (ready (b ∷ bytes)) now h =
        let r' : ProgressReader S = advance F now (length (b ∷ bytes)) r in
        let e : r'.bytes_read ≡ (r.bytes_read + length (b ∷ bytes)) % 2 ^ 64 =
          advance-bytes_read now (length (b ∷ bytes)) r in
        let rest = k r' (omega arith) in
        record {
          bytes =
              ap (λ t. b ∷ bytes ++ t)
                (rest.bytes ∙ ap (λ t. (plain t).0) (advance-inner now (length (b ∷ bytes)) r));
          inner = rest.inner ∙ ap (λ t. (plain t).1) (advance-inner now (length (b ∷ bytes)) r);
          counted = omega (arith, length-append bytes (next r').0, rest.counted, e);
        }

    -- A copy through the reader gives the same bytes as a copy of the inner reader, and leaves the
    -- inner reader in the same state, whether the stream ended, failed or was cut off. What was
    -- counted grows by the number of those bytes, as a `u64` that wraps around.
    pub copy-Passes :
        (n : ℕ) (r : ProgressReader S)
        → r.bytes_read < 2 ^ 64
        → Passes r (copy (poll_read F clock inner_poll) n r) (copy inner_poll n r.inner)
    unfolding copy poll_read
    copy-Passes zero r h = record { bytes = refl; inner = refl; counted = omega arith }
    copy-Passes (suc n) r h =
        let k =
          copy_on-Passes (copy (poll_read F clock inner_poll) n) (copy inner_poll n) (copy-Passes n)
            (record r { inner = (inner_poll r.inner).1; polls = suc r.polls })
            (inner_poll r.inner).0 (clock (suc r.polls)) h in
        record { bytes = k.bytes; inner = k.inner; counted = k.counted }
