-- ===== src/Programs/Client.antt =====
-- src/bin/embuer-client.rs: the commands, each of which makes calls over D-Bus and prints. What is
-- printed to stdout is listed by lines. Colours, padding and the time are parameters.
pub mod Bar
pub mod Output
pub mod Pending
pub mod Effects
use embuer.Base.{
  ℕ, Bool, true, false, Option, none, some, Result, ok, err, List, [], ◌∷◌, ◌++◌, if◌then◌else◌,
}
use embuer.Text.{Text, text}
use embuer.Text.Number.{show}
use embuer.Host.{Host}
use embuer.Dbus.{Shown}
use embuer.Proxy.{Link, System}
use embuer.Proxy as proxy
use embuer.Programs.Client.Pending.{pending_lines}
use embuer.Programs.Client.Output.{
  Terminal, End, finished, failed, panicked, Printed, prints, heading, status_lines,
  print_status_line, boot_lines, confirm_lines, sending_line, result_line,
}

pub data SubCommand : Type 0 where
  status boot_info watch pending_update accept reject : SubCommand
  install_file install_url : Text → SubCommand

-- How the bus fares in one run: `get_connection` with `EmbuerDBusProxy::new`, the call, the
-- subscription of `watch`, and the signals until their stream ends.
pub record Session : Type 0 where
  pub connection : Option Text
  pub link : Link
  pub subscription : Option Text
  pub signals : List (Result Text Shown)

-- What a command prints and how it ends, with the service behind it.
abbrev pub Ran : Host → Type 0
Ran H = Printed × System H

module _ (T : Terminal) where
  unfoldable pub follow : List (Result Text Shown) → Printed
  follow [] = ([], finished)
  follow (err e ∷ rest) = ([], failed e)
  follow (ok args ∷ rest) = print_status_line T args (follow rest)

  unfoldable pub subscribed : Session → Printed
  unfolding follow
  subscribed x = elim x.subscription [ none ↦ follow x.signals | some e ↦ ([], failed e) ]

module _ {H : Host} (T : Terminal) where
  -- `proxy.….await?`, and what is made of the answer
  unfoldable pub answered : {A : Type 0} → (A → Printed) → Result Text A × System H → Ran H
  answered f (ok a, s) = (f a, s)
  answered f (err e, s) = (([], failed e), s)

  -- What is printed before the call
  abbrev pub behind : List Text → Ran H → Ran H
  behind lines (p, s) = (prints lines p, s)

  unfoldable pub connected : Option Text → System H → Ran H → Ran H
  connected none s run = run
  connected (some e) s run = (([], failed e), s)

  unfoldable pub get_status : Session → System H → Ran H
  unfolding answered
  get_status x s = answered (status_lines T) (proxy.get_update_status x.link s)

  unfoldable pub get_boot_info : Session → System H → Ran H
  unfolding answered
  get_boot_info x s = answered (boot_lines T) (proxy.get_boot_info x.link s)

  unfoldable pub watch_status : Session → System H → Ran H
  unfolding answered subscribed
  watch_status x s = behind (heading T) (
      answered (λ first. print_status_line T first (subscribed T x))
        (proxy.get_update_status x.link s))

  unfoldable pub install_from_file : Text → Session → System H → Ran H
  unfolding answered
  install_from_file path x s =
      behind (sending_line T (text "📦") (text "Installing update from file: ") path ∷ [])
        (answered (result_line T) (proxy.install_update_from_file path x.link s))

  unfoldable pub install_from_url : Text → Session → System H → Ran H
  unfolding answered
  install_from_url u x s =
      behind (sending_line T (text "🌐") (text "Downloading and installing update from: ") u ∷ [])
        (answered (result_line T) (proxy.install_update_from_url u x.link s))

  unfoldable pub get_pending_update : Session → System H → Ran H
  unfolding answered
  get_pending_update x s = answered (pending_lines T) (proxy.get_pending_update x.link s)

  unfoldable pub confirm_update : Bool → Session → System H → Ran H
  unfolding answered
  confirm_update accepted x s =
      answered (confirm_lines T accepted) (proxy.confirm_update accepted x.link s)

  unfoldable pub run : SubCommand → Session → System H → Ran H
  unfolding get_status get_boot_info watch_status install_from_file install_from_url
      get_pending_update confirm_update
  run status x s = get_status x s
  run boot_info x s = get_boot_info x s
  run watch x s = watch_status x s
  run (install_file path) x s = install_from_file path x s
  run (install_url u) x s = install_from_url u x s
  run pending_update x s = get_pending_update x s
  run accept x s = confirm_update true x s
  run reject x s = confirm_update false x s

  -- Each command starts with the connection.
  unfoldable pub main : SubCommand → Session → System H → Ran H
  unfolding connected run
  main command x s = connected x.connection s (run command x s)

-- The exit code of the process; a panic of the main task is 101.
unfoldable pub exit_code : End → ℕ
exit_code finished = 0
exit_code (failed e) = 1
exit_code panicked = 101
