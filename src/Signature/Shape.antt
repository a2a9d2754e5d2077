-- ===== src/Signature/Shape.antt =====
-- src/core.rs, `verify_signature`: the shape of a decrypted block that is accepted.
use embuer.Base.{
  ℕ, zero, suc, ◌+◌, List, [], ◌∷◌, ◌++◌, ◌≡◌, refl, ap, Bool, true, false, none, some, get_elem?,
  ◌==◌, ==→eq, if◌then◌else◌, arith, length, drop, replicate, Bool-cases, inl, inr,
}
use embuer.Signature.{skip_padding}

-- The byte at `i` is `b`.
unfoldable pub byte_at : List ℕ → ℕ → ℕ → Bool
byte_at bytes i b = elim (get_elem? bytes i) [ none ↦ false | some c ↦ c == b ]

-- The number of padding bytes in front.
pub run : List ℕ → ℕ
run [] = 0
run (b ∷ bs) = let n = run bs in if b == 0xff then suc n else 0

pub skip_padding-run : (bs : List ℕ) (i : ℕ) → skip_padding bs i ≡ i + run bs
unfolding skip_padding run
skip_padding-run [] i = omega arith
skip_padding-run (b ∷ bs) i = ground (arith, skip_padding-run bs (suc i))

-- The padding, and what is behind it.
pub run-split : (bs : List ℕ) → bs ≡ replicate (run bs) 0xff ++ drop (run bs) bs
unfolding run
run-split [] = refl
run-split (b ∷ bs) = elim (Bool-cases (b == 0xff)) [
  | inl e ↦ rw e (rw (==→eq b 0xff e) (ap (λ t. 0xff ∷ t) (run-split bs)))
  | inr e ↦ rw e
]

pub run-replicate : (k : ℕ) (tail : List ℕ) → run (replicate k 0xff ++ 0 ∷ tail) ≡ k
unfolding run
run-replicate zero tail = refl
run-replicate (suc k) tail = ap suc (run-replicate k tail)

pub drop-replicate : (k : ℕ) (b : ℕ) (tail : List ℕ) → drop k (replicate k b ++ tail) ≡ tail
drop-replicate zero b tail = refl
drop-replicate (suc k) b tail = drop-replicate k b tail

drop-nil : (k : ℕ) → drop {A = ℕ} k [] ≡ []
drop-nil zero = refl
drop-nil (suc k) = refl

pub drop-drop : (m n k : ℕ) (bs : List ℕ) → n + m ≡ k → drop m (drop n bs) ≡ drop k bs
drop-drop m zero k bs e = ap (λ t. drop t bs) (omega arith)
drop-drop m (suc n) zero bs e = absurd (omega arith)
drop-drop m (suc n) (suc k) [] e = drop-nil m
drop-drop m (suc n) (suc k) (b ∷ bs) e = drop-drop m n k bs (omega arith)

-- A byte at `i` is the head of what is dropped to.
pub byte_at-drop : (bs : List ℕ) (i b : ℕ) → byte_at bs i b ≡ true → drop i bs ≡ b ∷ drop (suc i) bs
unfolding byte_at
byte_at-drop [] i b h = cc
byte_at-drop (c ∷ bs) zero b h = ap (λ t. t ∷ bs) (==→eq c b h)
byte_at-drop (c ∷ bs) (suc i) b h = byte_at-drop bs i b h

pub byte_at-append :
    (bs : List ℕ) (b : ℕ) (tail : List ℕ) → byte_at (bs ++ b ∷ tail) (length bs) b ≡ true
unfolding byte_at
byte_at-append [] b tail = ground arith
byte_at-append (c ∷ bs) b tail = byte_at-append bs b tail
