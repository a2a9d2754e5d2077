-- ===== src/Programs/Client/Output.antt =====
-- src/bin/embuer-client.rs: what the commands print.
use embuer.Base.{
  ℕ, zero, suc, Bool, true, false, Option, none, some, List, [], ◌∷◌, ◌++◌, if◌then◌else◌,
}
use embuer.Text.{Text, text, text_eq}
use embuer.Text.Number.{show}
use embuer.Status.{Progress, unknown, percent}
use embuer.Dbus.{Shown}
use embuer.Programs.Client.Bar.{cells}

pub data Style : Type 0 where
  dimmed bold white bright_white bright_blue bright_yellow bright_magenta : Style
  bright_green bright_red bright_cyan cyan : Style

pub record Terminal : Type 0 where
  -- the styles of `owo_colors`, `{:<width}`, and `Local::now()` in its format
  pub paint : Style → Text → Text
  pub padded : ℕ → Text → Text
  pub now : Text

-- The end of a command: it returns, with an error, or panics.
pub data End : Type 0 where
  finished panicked : End
  failed : Text → End

abbrev pub Printed : Type 0
Printed = List Text × End

-- Lines in front of what else is printed.
abbrev pub prints : List Text → Printed → Printed
prints before (after, end) = (before ++ after, end)

-- The character U+FE0F, which asks for the coloured form of the one before.
abbrev pub variation : ℕ
variation = 0xfe0f

unfoldable pub repeat : Text → ℕ → Text
repeat t zero = []
repeat t (suc n) = t ++ repeat t n

module _ (T : Terminal) where
  unfoldable pub status_colored : Text → Text
  status_colored status =
      if text_eq status (text "Idle")
      then T.paint dimmed status
      else if text_eq status (text "Checking")
      then T.paint bright_blue status
      else if text_eq status (text "Clearing")
      then T.paint bright_yellow status
      else if text_eq status (text "Installing")
      then T.paint bright_magenta status
      else if text_eq status (text "AwaitingConfirmation")
      then T.paint bold (T.paint bright_yellow status)
      else if text_eq status (text "Completed")
      then T.paint bold (T.paint bright_green status)
      else if text_eq status (text "Failed")
      then T.paint bold (T.paint bright_red status)
      else T.paint white status

  unfoldable pub emoji : Text → Text
  emoji status =
      if text_eq status (text "Idle")
      then text "💤"
      else if text_eq status (text "Checking")
      then text "🔍"
      else if text_eq status (text "Clearing")
      then text "🧹"
      else if text_eq status (text "Installing")
      then text "⚙" ++ variation ∷ []
      else if text_eq status (text "AwaitingConfirmation")
      then text "⏸" ++ variation ∷ []
      else if text_eq status (text "Completed")
      then text "✅"
      else if text_eq status (text "Failed")
      then text "❌"
      else text "ℹ" ++ variation ∷ []

  abbrev pub draw : Option (ℕ × ℕ) → Option Text
  draw none = none
  draw (some (filled, empty)) = some (
      text "["
      ++ T.paint bright_green (repeat (text "█") filled)
      ++ T.paint dimmed (repeat (text "░") empty)
      ++ text "]")

  unfoldable pub create_progress_bar : ℕ → Option Text
  unfolding cells repeat
  create_progress_bar progress = draw (cells progress)

  -- A line that ends in a bar, and what is printed behind it.
  unfoldable pub with_bar : Option Text → (Text → Text) → Printed → Printed
  with_bar none line rest = ([], panicked)
  with_bar (some bar) line rest = prints (line bar ∷ []) rest

  unfoldable pub progress_lines : Progress → Printed
  unfolding create_progress_bar with_bar
  progress_lines unknown = ([], finished)
  progress_lines (percent n) =
      with_bar (create_progress_bar n)
        (λ bar.
          text "  "
          ++ T.paint bright_white (text "Progress:")
          ++ text " "
          ++ T.paint bright_green (show n)
          ++ text "% "
          ++ bar)
        ([], finished)

  abbrev pub details_lines : Text → List Text
  details_lines [] = []
  details_lines (c ∷ d) =
      (text "  " ++ T.paint bright_white (text "Details:") ++ text " " ++ T.paint cyan (c ∷ d)) ∷ []

  abbrev pub title : Style → Text → Text → List Text
  title style sign words =
      (T.paint style sign ++ text " " ++ T.paint bold (T.paint bright_white words)) ∷ [] ∷ []

  unfoldable pub status_lines : Shown → Printed
  unfolding status_colored progress_lines
  status_lines (status, details, progress) =
      prints
        (title bright_cyan (text "📊") (text "Update Status")
          ++ (text "  "
              ++ T.paint bright_white (text "Status:")
              ++ text " "
              ++ status_colored status)
            ∷ details_lines details)
        (progress_lines progress)

  unfoldable pub boot_lines : ℕ × Text → Printed
  boot_lines (boot_id, boot_name) = (
    title bright_magenta (text "🚀") (text "Boot Deployment Information")
        ++ (text "  "
            ++ T.paint bright_white (text "Deployment Name:")
            ++ text " "
            ++ T.paint bold (T.paint bright_cyan boot_name))
          ∷ (text "  "
              ++ T.paint bright_white (text "Subvolume ID:")
              ++ text " "
              ++ T.paint bright_green (show boot_id))
          ∷ [],
    finished,
  )

  abbrev pub print_line : Text → Text → Text
  print_line status details =
      text "["
      ++ T.paint dimmed T.now
      ++ text "] "
      ++ emoji status
      ++ text " "
      ++ status_colored status
      ++ text " "
      ++ T.paint cyan details

  unfoldable pub print_status_line : Shown → Printed → Printed
  unfolding status_colored emoji create_progress_bar with_bar
  print_status_line (status, details, unknown) rest = prints (print_line status details ∷ []) rest
  print_status_line (status, details, percent n) rest =
      with_bar (create_progress_bar n)
        (λ bar.
          print_line status details
          ++ text " "
          ++ T.paint bright_green (show n)
          ++ text "% "
          ++ bar)
        rest

  abbrev pub heading : List Text
  heading =
      (T.paint bright_yellow (text "👁" ++ variation ∷ [])
        ++ text " "
        ++ T.paint bold (T.paint bright_white (text "Watching for status updates...")))
      ∷ T.paint dimmed (text "(Press Ctrl+C to exit)")
      ∷ []
      ∷ []

  unfoldable pub sending_line : Text → Text → Text → Text
  sending_line sign words target =
      T.paint bright_cyan sign ++ text " " ++ words ++ T.paint bold (T.paint bright_white target)

  unfoldable pub result_line : Text → Printed
  result_line result = (
    (T.paint bold (T.paint bright_green (text "✓")) ++ text " " ++ T.paint bright_white result)
        ∷ [],
    finished,
  )

  unfoldable pub confirm_lines : Bool → Text → Printed
  confirm_lines true result = (
    (T.paint bright_green (text "✅") ++ text " " ++ T.paint bold (T.paint bright_green result))
        ∷ T.paint bright_white (text "Installation will proceed...")
        ∷ [],
    finished,
  )
  confirm_lines false result = (
    (T.paint bright_red (text "❌") ++ text " " ++ T.paint bold (T.paint bright_red result))
        ∷ T.paint bright_white (text "Update has been rejected.")
        ∷ [],
    finished,
  )
