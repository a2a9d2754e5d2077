-- ===== src/Build/Declarations.antt =====
-- What a C compiler reads in a header: the functions and the callback that it declares, and the
-- integers that it defines. The tokens are those that the header of build.rs needs.
use embuer.Base.{
  ℕ, ◌-◌, Bool, true, false, Option, none, some, List, [], ◌∷◌, ◌++◌, ◌==◌, leb, ◌||◌, ◌&&◌,
  if◌then◌else◌, Result, ok, err,
}
use embuer.Text.{
  Text, text, text_eq, is_whitespace, lines, split_whitespace, strip_prefix, split_once,
}
use embuer.Text.Number.{ParseIntError, parse_u64}
use embuer.Ffi.{ℤ, pos, negsuc}

pub data Token : Type 0 where
  word : Text → Token
  symbol : ℕ → Token

-- Where the scanner is: in code, behind a `/`, in a comment, behind a `*` in it, in a directive.
pub data Mode : Type 0 where
  code slash comment star directive : Mode

is_word : ℕ → Bool
is_word c =
    (leb b'a' c && leb c b'z')
    || (leb b'A' c && leb c b'Z')
    || (leb b'0' c && leb c b'9')
    || c == b'_'

-- A word that has come to its end.
flush : Text → List Token → List Token
flush [] ts = ts
flush (c ∷ w) ts = word (c ∷ w) ∷ ts

in_code : Text → ℕ → Mode × Text × List Token
unfolding is_word flush is_whitespace
in_code w c =
    if is_word c
    then (code, w ++ c ∷ [], [])
    else if c == b'/'
    then (slash, [], flush w [])
    else if c == b'#'
    then (directive, [], flush w [])
    else if is_whitespace c
    then (code, [], flush w [])
    else (code, [], flush w (symbol c ∷ []))

step : Mode → Text → ℕ → Mode × Text × List Token
unfolding in_code
step code w c = in_code w c
step slash w c = if c == b'*' then (comment, [], []) else (code, [], symbol b'/' ∷ symbol c ∷ [])
step comment w c = if c == b'*' then (star, [], []) else (comment, [], [])
step star w c =
    if c == b'/' then (code, [], []) else if c == b'*' then (star, [], []) else (comment, [], [])
step directive w c = if c == 10 then (code, [], []) else (directive, [], [])

scan : Mode → Text → Text → List Token
unfolding step flush
scan m w [] = flush w []
scan m w (c ∷ s) = let (m', w', out) = step m w c in out ++ scan m' w' s

unfoldable pub tokens : Text → List Token
unfolding scan
tokens s = scan code [] s

-- The tokens between those that `cut` finds.
with_first : Token → List (List Token) → List (List Token)
with_first t [] = (t ∷ []) ∷ []
with_first t (ts ∷ rest) = (t ∷ ts) ∷ rest

split_by : (Token → Bool) → List Token → List (List Token)
unfolding with_first
split_by cut [] = [] ∷ []
split_by cut (t ∷ ts) =
    let rest = split_by cut ts in elim (cut t) [ true ↦ [] ∷ rest | false ↦ with_first t rest ]

is_symbol : ℕ → Token → Bool
is_symbol c (symbol d) = c == d
is_symbol c (word w) = false

pub data CType : Type 0 where
  named : Text → CType
  constant pointer : CType → CType

pub record Signature : Type 0 where
  pub result : CType
  pub params : List CType

-- The `*` behind a type.
stars : CType → List Token → CType × List Token
stars t [] = (t, [])
stars t (symbol c ∷ ts) = elim (c == b'*') [
  | true ↦ stars (pointer t) ts
  | false ↦ (t, symbol c ∷ ts)
]
stars t (word w ∷ ts) = (t, word w ∷ ts)

behind_const : List Token → Option (CType × List Token)
unfolding stars
behind_const (word w ∷ ts) = some (stars (constant (named w)) ts)
behind_const _ = none

c_type : List Token → Option (CType × List Token)
unfolding behind_const stars text text_eq
c_type (word w ∷ ts) =
    if text_eq w (text "const") then behind_const ts else some (stars (named w) ts)
c_type _ = none

-- The parameters, up to the closing parenthesis.
param : Option (CType × List Token) → List CType
param (some (t, word name ∷ [])) = t ∷ []
param _ = []

params_of : List (List Token) → List CType
unfolding param c_type
params_of [] = []
params_of (ts ∷ rest) = param (c_type ts) ++ params_of rest

arguments : List (List Token) → List CType
unfolding params_of split_by is_symbol
arguments [] = []
arguments (inside ∷ _) = params_of (split_by (is_symbol b',') inside)

signature : CType → List Token → Signature
unfolding arguments split_by is_symbol
signature t ts = record { result = t; params = arguments (split_by (is_symbol b')') ts) }

-- `T name(…)`, and of a typedef `T (*name)(…)`
declared : Option (CType × List Token) → List (Text × Signature)
unfolding signature
declared (some (t, word name ∷ symbol _ ∷ ts)) = (name, signature t ts) ∷ []
declared (some (t, symbol _ ∷ symbol _ ∷ word name ∷ symbol _ ∷ symbol _ ∷ ts)) =
    (name, signature t ts) ∷ []
declared _ = []

declaration : List Token → List (Text × Signature)
unfolding declared c_type text text_eq
declaration (word w ∷ ts) =
    if text_eq w (text "typedef") then declared (c_type ts) else declared (c_type (word w ∷ ts))
declaration _ = []

declarations : List (List Token) → List (Text × Signature)
unfolding declaration
declarations [] = []
declarations (ts ∷ rest) = declaration ts ++ declarations rest

-- What a header declares with a list of parameters, by its name.
unfoldable pub prototypes : Text → List (Text × Signature)
unfolding declarations split_by is_symbol tokens
prototypes header =
    declarations (split_by (λ t. is_symbol b';' t || is_symbol b'{' t) (tokens header))

negative : Result ParseIntError ℕ → Option ℤ
negative (ok n) = some (negsuc (n - 1))
negative (err e) = none

positive : Result ParseIntError ℕ → Option ℤ
positive (ok n) = some (pos n)
positive (err e) = none

integer : Text → Option ℤ
unfolding negative positive parse_u64
integer [] = none
integer (c ∷ s) = if c == b'-' then negative (parse_u64 s) else positive (parse_u64 (c ∷ s))

define : Option ℤ → Text → List (Text × ℤ)
define none name = []
define (some v) name = (name, v) ∷ []

directive_of : List Text → List (Text × ℤ)
unfolding define integer text text_eq
directive_of (d ∷ name ∷ v ∷ _) = if text_eq d (text "#define") then define (integer v) name else []
directive_of _ = []

definitions_in : List Text → List (Text × ℤ)
unfolding directive_of split_whitespace
definitions_in [] = []
definitions_in (l ∷ ls) = directive_of (split_whitespace l) ++ definitions_in ls

-- The integers that a header defines, by their names.
unfoldable pub defines : Text → List (Text × ℤ)
unfolding definitions_in lines
defines header = definitions_in (lines header)

quoted : Option (Text × Text) → List Text
quoted none = []
quoted (some (name, rest)) = name ∷ []

listed : Option Text → List Text
unfolding quoted split_once text
listed none = []
listed (some rest) = quoted (split_once (text "\"") rest)

items : List Text → List Text
unfolding listed strip_prefix text
items [] = []
items (l ∷ ls) = listed (strip_prefix (text " * - \"") l) ++ items ls

-- The names in quotes that a comment of the header lists.
unfoldable pub statuses : Text → List Text
unfolding items lines
statuses header = items (lines header)
