-- ===== src/Service/Version.antt =====
-- src/service.rs, `extract_version_from_changelog`. `char::is_alphanumeric` goes by Unicode's
-- tables and is a parameter.
use embuer.Base.{ℕ, List, [], ◌∷◌, Bool, Option, none, some, ◌==◌, ◌&&◌, ◌||◌, if◌then◌else◌, take}
use embuer.Text.{Text, text, trim, lines, split_once, count, all_chars}

module _ (is_alphanumeric : ℕ → Bool) where
  -- A text such as "2.1.0".
  unfoldable pub looks_like_version : Text → Bool
  looks_like_version trimmed =
      count b'.' trimmed == 2 && all_chars (λ c. is_alphanumeric c || c == b'.') trimmed

  -- The version that one line gives, if it gives one.
  unfoldable pub version_of_line : Text → Option Text
  unfolding looks_like_version
  version_of_line line = elim (split_once (text "Version ") line) [
    | some (before, version) ↦ some (trim version)
    | none ↦ elim (split_once (text "v") line) [
      | some (before, version) ↦ some (trim version)
      | none ↦ if looks_like_version (trim line) then some (trim line) else none
    ]
  ]

  unfoldable pub first_version : List Text → Text
  unfolding version_of_line
  first_version [] = text "unknown"
  first_version (line ∷ rest) = elim (version_of_line line) [
    | some version ↦ version
    | none ↦ first_version rest
  ]

  unfoldable pub extract_version_from_changelog : Text → Text
  unfolding first_version
  extract_version_from_changelog changelog = first_version (take 10 (lines changelog))
