-- ===== src/Stream/Progress/Bounded.antt =====
-- src/progress_stream.rs: the percentages that a `ProgressReader` reports.

use embuer.Base.{
  ℕ, zero, suc, ◌+◌, ◌%◌, ◌^◌, ◌<◌, ◌≤◌, List, [], ◌∷◌, ◌≡◌, ap, ◌∙◌, some, length, arith,
  length-append, Bool-cases, inl, inr, ltb, ltb→lt, All, All-append,
}
use embuer.Status.{UpdateStatus, installing, Progress, unknown, percent}
use embuer.Stream.{Poll, ready, failed, pending, Reader, copy_on, copy}
use embuer.Stream.Progress.Laws.{either}
use embuer.Stream.Progress.{
  Float, ProgressReader, ratio, calculate_progress, report, advance, observe, poll_read,
}

-- What IEEE 754 says of `f64`: the operations are monotone, a positive number divided by itself is
-- 1, and 1 times 100 is 100.
pub record Monotone (F : Float) : Type 1 where
  pub le : F.F → F.F → Type 0
  pub one : F.F
  pub of_u64_mono : (m n : ℕ) → m ≤ n → le (F.of_u64 m) (F.of_u64 n)
  pub div_mono :
      (a b : F.F) (n : ℕ) → 0 < n → le a b → le (F.div a (F.of_u64 n)) (F.div b (F.of_u64 n))
  pub div_self : (n : ℕ) → 0 < n → F.div (F.of_u64 n) (F.of_u64 n) ≡ one
  pub mul_mono : (a b : F.F) → le a b → le (F.mul a F.hundred) (F.mul b F.hundred)
  pub one_mul : F.mul one F.hundred ≡ F.hundred
  pub to_i32_mono : (a b : F.F) → le a b → F.to_i32 a ≤ F.to_i32 b
  pub to_i32_hundred : F.to_i32 F.hundred ≡ 100

abbrev pub AtMost : ℕ → Progress → Type 0
AtMost n unknown = Unit
AtMost n (percent p) = p ≤ n

-- A status that shows no more than 100 percent.
abbrev pub Bounded : UpdateStatus → Type 0
Bounded (installing source p) = AtMost 100 p
Bounded _ = Unit

module _ {F : Float} (M : Monotone F) where
  ratio-AtMost : (bytes size : ℕ) → bytes ≤ size → AtMost 100 (ratio F bytes size)
  unfolding ratio
  ratio-AtMost bytes size h = elim (Bool-cases (ltb 0 size)) [
    | inl some_size ↦ rw some_size (bound (ltb→lt 0 size some_size))
    | inr no_size ↦ rw no_size tt
  ]
    where
      bound : 0 < size → F.to_i32 (F.mul (F.div (F.of_u64 bytes) (F.of_u64 size)) F.hundred) ≤ 100
      bound pos =
          let below = M.to_i32_mono _ _ (
            M.mul_mono _ _ (
              M.div_mono (F.of_u64 bytes) (F.of_u64 size) size pos (M.of_u64_mono bytes size h))) in
          let top =
            ap (λ q. F.to_i32 (F.mul q F.hundred)) (M.div_self size pos)
            ∙ ap F.to_i32 M.one_mul
            ∙ M.to_i32_hundred in
          omega (arith, below, top)

  module _ {S : Type 0} (size : ℕ) (fits : size < 2 ^ 64) where
    -- The reader knows the size, and has reported no more than 100 percent.
    pub record Within (r : ProgressReader S) : Type 0 where
      pub total : r.total_size ≡ some size
      pub reported : All Bounded r.spawned

    report-Within :
        (now : ℕ) (r : ProgressReader S) → Within r → r.bytes_read ≤ size → Within (report F now r)
    unfolding report calculate_progress
    report-Within now r w h = record {
      total = w.total;
      reported =
          All-append Bounded r.spawned _ w.reported
            (rw w.total (ratio-AtMost r.bytes_read size h), tt);
    }

    advance-Within :
        (now k : ℕ) (r : ProgressReader S)
        → Within r
        → r.bytes_read + k ≤ size
        → Within (advance F now k r) × ((advance F now k r).bytes_read ≡ r.bytes_read + k)
    unfolding advance report
    advance-Within now k r w h =
        let r' : ProgressReader S = record r { bytes_read = (r.bytes_read + k) % 2 ^ 64 } in
        let e : r'.bytes_read ≡ r.bytes_read + k = omega (arith, fits, h) in
        let plain : Within r' = record { total = w.total; reported = w.reported } in
        either (λ x. Within x × (x.bytes_read ≡ r.bytes_read + k)) _ _ _
          (report-Within now r' plain (omega (arith, e, h)), e) (plain, e)

    module _ (clock : ℕ → ℕ) (inner_poll : Reader S) where
      -- What the rest of a copy keeps, when it passes on no more than is missing.
      abbrev KeepsWithin : (ProgressReader S → List ℕ × ProgressReader S) → Type 0
      KeepsWithin next =
          (r : ProgressReader S)
          → Within r
          → r.bytes_read + length (next r).0 ≤ size
          → Within (next r).1

      copy_on-Within :
          (next : ProgressReader S → List ℕ × ProgressReader S)
          → KeepsWithin next
          → (p : Poll) (now : ℕ) (r : ProgressReader S) → Within r
          → r.bytes_read + length (copy_on next (p, observe F p now r)).0 ≤ size
          → Within (copy_on next (p, observe F p now r)).1
      unfolding observe
      copy_on-Within next k (failed e) now r w h = w
      copy_on-Within next k pending now r w h = k r w h
      copy_on-Within next k (ready []) now r w h = (advance-Within now 0 r w h).0
      copy_on-Within next k (ready (b ∷ bytes)) now r w h =
          let r' : ProgressReader S = advance F now (length (b ∷ bytes)) r in
          let total = length-append bytes (next r').0 in
          let (w', e) = advance-Within now (length (b ∷ bytes)) r w (omega (arith, total, h)) in
          k r' w' (omega (arith, total, e, h))

      -- As long as a copy through the reader passes on no more bytes than the size that the reader
      -- was given, behind those that it had counted, the reader reports 100 percent at most.
      pub copy-Within :
          (n : ℕ) (r : ProgressReader S)
          → Within r
          → r.bytes_read + length (copy (poll_read F clock inner_poll) n r).0 ≤ size
          → Within (copy (poll_read F clock inner_poll) n r).1
      unfolding copy poll_read
      copy-Within zero r w h = w
      copy-Within (suc n) r w h =
          copy_on-Within (copy (poll_read F clock inner_poll) n) (copy-Within n)
            (inner_poll r.inner).0 (clock (suc r.polls))
            (record r { inner = (inner_poll r.inner).1; polls = suc r.polls })
            (record { total = w.total; reported = w.reported }) h
