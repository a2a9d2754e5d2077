-- ===== src/Installer/Changelog.antt =====
-- src/bin/embuer-installer.rs, `render_changelog_tui`: the box around a changelog, in the style of
-- embuer-client.
use embuer.Base.{List, [], ◌∷◌, ◌++◌}
use embuer.Text.{Text, text, lines}
use embuer.Programs.Client.Output.{bright_yellow, bright_white, cyan, Terminal}
use embuer.Programs.Client.Pending.{border, label_line, changelog_lines}

unfoldable pub render_changelog_tui : Terminal → Text → Text → List Text
unfolding border changelog_lines
render_changelog_tui T changelog source =
    let border_mid = border T (text "╠") (text "╣") in
    border T (text "╔") (text "╗")
    ∷ label_line T bright_yellow (text "📦 INSTALLING UPDATE") 66 []
    ∷ border_mid
    ∷ label_line T bright_white (text "Source:") 58 (T.paint cyan source)
    ∷ border_mid
    ∷ label_line T bright_white (text "📝 CHANGELOG") 66 []
    ∷ border_mid
    ∷ (changelog_lines T (lines changelog) ++ border T (text "╚") (text "╝") ∷ [])
