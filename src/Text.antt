-- ===== src/Text.antt =====
-- Rust's `str`, `String` and `Path` as the program uses them, over lists of code points.
-- A literal is `text "…"`, which stays folded in proofs. Paths are the texts that they display.
pub mod Number
pub mod Laws
use Prim.Native.Char.{code}
use embuer.Base.{
  ℕ, suc, ◌+◌, String, Bool, true, false, List, [], ◌∷◌, ◌++◌, Option, none, some, ◌==◌, leb,
  if◌then◌else◌, ◌&&◌, ◌||◌,
}

abbrev pub Text : Type 0
Text = List ℕ

unfoldable pub text : String → Text
text String.[] = []
text (String.◌∷◌ c s) = code c ∷ text s

-- `a == b`
unfoldable pub text_eq : Text → Text → Bool
text_eq [] [] = true
text_eq [] (d ∷ b) = false
text_eq (c ∷ a) [] = false
text_eq (c ∷ a) (d ∷ b) = c == d && text_eq a b

-- `s.strip_prefix(p)`
unfoldable pub strip_prefix : Text → Text → Option Text
strip_prefix [] s = some s
strip_prefix (c ∷ p) [] = none
strip_prefix (c ∷ p) (d ∷ s) = if c == d then strip_prefix p s else none

abbrev some? {ℓ} : {A : Type ℓ} → Option A → Bool
some? none = false
some? (some a) = true

-- `s.starts_with(p)`
unfoldable pub starts_with : Text → Text → Bool
unfolding strip_prefix
starts_with p s = some? (strip_prefix p s)

-- `s.contains(p)`
unfoldable pub contains : Text → Text → Bool
unfolding starts_with
contains p [] = starts_with p []
contains p (c ∷ s) = starts_with p (c ∷ s) || contains p s

abbrev or_later : ℕ → Option (Text × Text) → Option (Text × Text)
or_later c none = none
or_later c (some (a, b)) = some (c ∷ a, b)

-- `s.split_once(p)`: the texts before and after the first occurrence of `p`.
unfoldable pub split_once : Text → Text → Option (Text × Text)
unfolding strip_prefix
split_once p [] = elim (strip_prefix p []) [ none ↦ none | some rest ↦ some ([], rest) ]
split_once p (c ∷ s) = elim (strip_prefix p (c ∷ s)) [
  | none ↦ or_later c (split_once p s)
  | some rest ↦ some ([], rest)
]

-- `char::is_whitespace`: the code points of the property White_Space.
unfoldable pub is_whitespace : ℕ → Bool
is_whitespace c =
    (leb 9 c && leb c 13)
    || c == 0x20
    || c == 0x85
    || c == 0xa0
    || c == 0x1680
    || (leb 0x2000 c && leb c 0x200a)
    || c == 0x2028
    || c == 0x2029
    || c == 0x202f
    || c == 0x205f
    || c == 0x3000

unfoldable pub trim_start : Text → Text
unfolding is_whitespace
trim_start [] = []
trim_start (c ∷ s) = if is_whitespace c then trim_start s else c ∷ s

drop_blank : ℕ → Text → Text
unfolding is_whitespace
drop_blank c [] = if is_whitespace c then [] else c ∷ []
drop_blank c (d ∷ s) = c ∷ d ∷ s

unfoldable pub trim_end : Text → Text
unfolding drop_blank
trim_end [] = []
trim_end (c ∷ s) = drop_blank c (trim_end s)

unfoldable pub trim : Text → Text
unfolding trim_start trim_end
trim s = trim_end (trim_start s)

-- The carriage return of a line that ends in "\r\n".
unfoldable pub strip_return : Text → Text
strip_return [] = []
strip_return (c ∷ []) = if c == 13 then [] else c ∷ []
strip_return (c ∷ d ∷ s) = c ∷ strip_return (d ∷ s)

lines_from : Text → Text → List Text
unfolding strip_return
lines_from [] [] = []
lines_from [] (d ∷ line) = (d ∷ line) ∷ []
lines_from (c ∷ s) line = elim (c == 10) [
  | true ↦ strip_return line ∷ lines_from s []
  | false ↦ lines_from s (line ++ c ∷ [])
]

-- `s.lines()`
unfoldable pub lines : Text → List Text
unfolding lines_from
lines s = lines_from s []

with_word : Text → List Text → List Text
with_word [] ws = ws
with_word (c ∷ w) ws = (c ∷ w) ∷ ws

words_from : Text → Text → List Text
unfolding with_word is_whitespace
words_from [] word = with_word word []
words_from (c ∷ s) word = elim (is_whitespace c) [
  | true ↦ with_word word (words_from s [])
  | false ↦ words_from s (word ++ c ∷ [])
]

-- `s.split_whitespace()`
unfoldable pub split_whitespace : Text → List Text
unfolding words_from
split_whitespace s = words_from s []

-- `s.matches(c).count()`
unfoldable pub count : ℕ → Text → ℕ
count c [] = 0
count c (d ∷ s) = (if c == d then 1 else 0) + count c s

-- `s.chars().all(p)`
unfoldable pub all_chars : (ℕ → Bool) → Text → Bool
all_chars p [] = true
all_chars p (c ∷ s) = p c && all_chars p s

unfoldable pub ends_with_slash : Text → Bool
ends_with_slash [] = false
ends_with_slash (c ∷ []) = c == b'/'
ends_with_slash (c ∷ d ∷ s) = ends_with_slash (d ∷ s)

-- `base.join(p)`: an absolute `p` replaces `base`.
unfoldable pub join : Text → Text → Text
unfolding ends_with_slash
join [] p = p
join (b ∷ base) [] = if ends_with_slash (b ∷ base) then b ∷ base else (b ∷ base) ++ b'/' ∷ []
join (b ∷ base) (c ∷ p) =
    if c == b'/'
    then c ∷ p
    else if ends_with_slash (b ∷ base)
    then (b ∷ base) ++ c ∷ p
    else (b ∷ base) ++ b'/' ∷ c ∷ p
