-- ===== src/Programs/Client/Pending.antt =====
-- src/bin/embuer-client.rs, `get_pending_update`: the box around a changelog.
use embuer.Base.{ℕ, Bool, List, [], ◌∷◌, ◌++◌, if◌then◌else◌, ◌||◌}
use embuer.Text.{Text, text, starts_with, lines}
use embuer.Programs.Client.Output.{
  Style, dimmed, bright_white, bright_yellow, bright_green, bright_red, bright_cyan, bold, white,
  cyan, Terminal, Printed, finished, repeat,
}

module _ (T : Terminal) where
  unfoldable pub border : Text → Text → Text
  unfolding repeat
  border left right = T.paint bright_cyan (left ++ repeat (text "═") 76 ++ right)

  -- A line of the box, between its sides.
  unfoldable pub boxed_line : Text → Text
  boxed_line words =
      T.paint bright_cyan (text "║")
      ++ text " "
      ++ words
      ++ text " "
      ++ T.paint bright_cyan (text "║")

  unfoldable pub is_section : Text → Bool
  is_section line =
      starts_with (text "New Features:") line
      || starts_with (text "Bug Fixes:") line
      || starts_with (text "Performance:") line
      || starts_with (text "Breaking Changes:") line

  unfoldable pub formatted_line : Text → Text
  unfolding is_section
  formatted_line line =
      if is_section line
      then T.paint bold (T.paint bright_yellow line)
      else if starts_with (text "- ") line
      then text "  " ++ T.paint bright_white line
      else T.paint white line

  unfoldable pub changelog_lines : List Text → List Text
  unfolding formatted_line boxed_line
  changelog_lines [] = []
  changelog_lines (line ∷ rest) =
      boxed_line (T.padded 74 (formatted_line line)) ∷ changelog_lines rest

  abbrev pub label_line : Style → Text → ℕ → Text → Text
  label_line style words width value =
      boxed_line (T.paint bold (T.paint style words) ++ text " " ++ T.padded width value)

  unfoldable pub pending_lines : Text × Text × Text → Printed
  unfolding border boxed_line changelog_lines
  pending_lines (version, changelog, source) =
      let border_mid = border (text "╠") (text "╣") in
      (
        border (text "╔") (text "╗")
            ∷ label_line bright_yellow (text "📦 PENDING UPDATE") 66 []
            ∷ border_mid
            ∷ label_line bright_white (text "Version:") 57 (T.paint bright_green version)
            ∷ label_line bright_white (text "Source:") 58 (T.paint cyan source)
            ∷ border_mid
            ∷ label_line bright_white (text "📝 CHANGELOG") 66 []
            ∷ border_mid
            ∷ (changelog_lines (lines changelog)
                ++ border_mid
                  ∷ boxed_line (
                      T.paint dimmed (text "Use")
                      ++ text " "
                      ++ T.padded 41 (
                          T.paint bright_green (text "embuer-client accept")
                          ++ text " to install or "
                          ++ T.paint bright_red (text "embuer-client reject")
                          ++ text " to cancel"))
                  ∷ border (text "╚") (text "╝")
                  ∷ []),
        finished,
      )
