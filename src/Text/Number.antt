-- ===== src/Text/Number.antt =====
-- `u64` in decimal: `to_string` and `parse::<u64>`, as the `btrfs` wrapper uses them.
pub mod RoundTrip
use embuer.Base.{
  ℕ, zero, suc, ◌+◌, ◌-◌, ◌*◌, ◌/◌, ◌%◌, ◌^◌, List, [], ◌∷◌, ◌==◌, ltb, if◌then◌else◌, ◌||◌, Result,
  ok, err,
}

pub data ParseIntError : Type 0 where
  empty invalid_digit pos_overflow : ParseIntError

abbrev pub u64_max : ℕ
u64_max = 2 ^ 64 - 1

-- One digit behind the value so far; a digit error comes before an overflow.
push_digit : ℕ → ℕ → Result ParseIntError ℕ
push_digit acc c =
    if ltb c b'0' || ltb b'9' c
    then err invalid_digit
    else if ltb u64_max (acc * 10 + (c - b'0'))
    then err pos_overflow
    else ok (acc * 10 + (c - b'0'))

scan : ℕ → List ℕ → Result ParseIntError ℕ
unfolding push_digit
scan acc [] = ok acc
scan acc (c ∷ s) = elim (push_digit acc c) [ ok v ↦ scan v s | err e ↦ err e ]

-- `s.parse::<u64>()`: one leading `+` is accepted.
unfoldable pub parse_u64 : List ℕ → Result ParseIntError ℕ
unfolding scan
parse_u64 [] = err empty
parse_u64 (c ∷ []) = scan 0 (c ∷ [])
parse_u64 (c ∷ d ∷ s) = if c == b'+' then scan 0 (d ∷ s) else scan 0 (c ∷ d ∷ s)

digits : ℕ → ℕ → List ℕ → List ℕ
digits zero n out = out
digits (suc fuel) n out =
    let more = digits fuel (n / 10) ((b'0' + n % 10) ∷ out) in
    if ltb n 10 then (b'0' + n) ∷ out else more

-- `n.to_string()`. A `u64` has twenty digits at most.
unfoldable pub show : ℕ → List ℕ
unfolding digits
show n = digits 20 n []
