-- ===== src/Tests/Progress.antt =====
-- src/progress_stream.rs, with whole numbers in the place of `f64`.
use native.Mathlib.Nat.{le_trans, div_self, div-mul-le_self, le-div_iff_mul-le}
use embuer.Base.{ℕ, ◌*◌, ◌/◌, ◌≤◌, ◌<◌, some, refl, arith}
use embuer.Text.{text}
use embuer.Stream.{copy, scripted}
use embuer.Stream.Progress
use embuer.Stream.Progress.{poll_read}
use embuer.Stream.Progress.Bounded.{Monotone, Within, copy-Within}
use embuer.Tests.World.{float, polls}

div_mono : (a b n : ℕ) → 0 < n → a ≤ b → a / n ≤ b / n
div_mono a b n pos h = (le-div_iff_mul-le pos).1 (le_trans (div-mul-le_self a n) h)

abbrev monotone : Monotone float
monotone = record {
  le = ◌≤◌;
  one = 1;
  of_u64_mono = λ m n h. h;
  div_mono = div_mono;
  div_self = λ n h. div_self h;
  mul_mono = λ a b h. omega arith;
  one_mul = refl;
  to_i32_mono = λ a b h. h;
  to_i32_hundred = refl;
}

copy-Within_example :
    Within monotone 9
      (omega arith)
      (copy
        (poll_read float (λ n. n * 200) scripted)
        3
        (Progress.new 0 polls (some 9) (text "u"))).1
unfolding Progress.new copy poll_read
copy-Within_example =
    copy-Within monotone 9 (omega arith) (λ n. n * 200) scripted 3
      (Progress.new 0 polls (some 9) (text "u")) (record { total = refl; reported = tt })
      (omega arith)
