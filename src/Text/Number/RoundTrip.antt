-- ===== src/Text/Number/RoundTrip.antt =====
-- Parsing a printed `u64` gives it back.
use native.Mathlib.Nat.{pow-suc}
use embuer.Base.{
  ℕ, zero, suc, ◌+◌, ◌*◌, ◌/◌, ◌%◌, ◌^◌, ◌≤◌, ◌<◌, List, [], ◌∷◌, ◌≡◌, refl, sym, ap, ◌∙◌, arith,
  ltb, Bool-cases, inl, inr, ltb→lt, ok,
}
use embuer.Text.Number.{u64_max, push_digit, scan, parse_u64, digits, show}

push_digit-ok :
    (acc d v : ℕ) → d < 10 → acc * 10 + d ≡ v → v ≤ u64_max → push_digit acc (b'0' + d) ≡ ok v
unfolding push_digit
push_digit-ok acc d v h e k = ground arith

scan-cons :
    (acc d v : ℕ) (s : List ℕ)
    → d < 10
    → acc * 10 + d ≡ v
    → v ≤ u64_max
    → scan acc ((b'0' + d) ∷ s) ≡ scan v s
unfolding scan
scan-cons acc d v s h e k = ground (arith, push_digit-ok acc d v h e k)

scan-digits :
    (f n : ℕ) (out : List ℕ) → n < 10 ^ f → n ≤ u64_max → scan 0 (digits f n out) ≡ scan n out
unfolding scan digits
scan-digits zero n out h k = let e : n ≡ 0 = omega arith in rw e
scan-digits (suc f) n out h k = elim (Bool-cases (ltb n 10)) [
  | inl small ↦ rw small (scan-cons 0 n n out (ltb→lt n 10 small) (omega arith) k)
  | inr large ↦ rw large (
      scan-digits f (n / 10) ((b'0' + n % 10) ∷ out)
        (let e : 10 ^ suc f ≡ 10 ^ f * 10 = pow-suc 10 f in omega arith) (omega arith)
      ∙ scan-cons (n / 10) (n % 10) n out (omega arith) (omega arith) k)
]

digits-cons :
    (f n : ℕ) (c : ℕ) (out : List ℕ)
    → b'0' ≤ c
    → (d : ℕ) × (r : List ℕ) × (digits f n (c ∷ out) ≡ d ∷ r) × (b'0' ≤ d)
unfolding digits
digits-cons zero n c out h = (c, out, refl, h)
digits-cons (suc f) n c out h = elim (Bool-cases (ltb n 10)) [
  | inl small ↦ (b'0' + n, c ∷ out, rw small, omega arith)
  | inr large ↦ rw large (digits-cons f (n / 10) (b'0' + n % 10) (c ∷ out) (omega arith))
]

-- A printed number starts with a digit.
pub show-cons : (n : ℕ) → (d : ℕ) × (r : List ℕ) × (show n ≡ d ∷ r) × (b'0' ≤ d)
unfolding show digits
show-cons n = elim (Bool-cases (ltb n 10)) [
  | inl small ↦ (b'0' + n, [], rw small, omega arith)
  | inr large ↦ rw large (digits-cons 19 (n / 10) (b'0' + n % 10) [] (omega arith))
]

scan_of_digit : (d : ℕ) (r : List ℕ) → b'0' ≤ d → parse_u64 (d ∷ r) ≡ scan 0 (d ∷ r)
unfolding parse_u64
scan_of_digit d [] h = refl
scan_of_digit d (e ∷ r) h = ground arith

-- Every `u64` that `to_string` prints is read back by `parse`.
pub parse_u64-show : (n : ℕ) → n ≤ u64_max → parse_u64 (show n) ≡ ok n
unfolding show scan
parse_u64-show n h =
    let (d, r, e, ge) = show-cons n in
    ap parse_u64 e
    ∙ scan_of_digit d r ge
    ∙ ap (scan 0) (sym e)
    ∙ scan-digits 20 n [] (omega arith) h
