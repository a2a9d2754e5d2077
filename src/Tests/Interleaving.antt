-- ===== src/Tests/Interleaving.antt =====
-- src/service.rs with its tasks interleaved, and build.rs.
use embuer.Base.{[], ◌∷◌, ◌≡◌, ◌+◌, ◌≤◌, length, true, false, some, ok, err}
use embuer.Text.{Text, text}
use embuer.Error.{ServiceError}
use embuer.Status.{idle, percent, as_str}
use embuer.Service.State.{PendingUpdate}
use embuer.Service.Confirm.{confirm_update}
use embuer.Service.Live.{awaiting, Live, Steps, at_once, started, view}
use embuer.Service.Live.Ledger.{shown_at, confirmed, begun, on_the_way, Steps-Accounted}
use embuer.Service.Live.Stuck.{late_state, reached, late_report-awaits}
use embuer.Service.Requests.{Entry, Sources}
use embuer.Ffi.{embuer_err_dbus, value}
use embuer.Ffi.Exports.{embuer_get_status, code_name, name}
use embuer.Build.Header.{generate_header}
use embuer.Build.Declarations.{prototypes, defines, statuses}
use embuer.Build.Agrees.{find, mem, signature, signatures, exports, generate_header-Agrees}
use embuer.Tests.World.{host, env, polls}

abbrev first_update : PendingUpdate
first_update = record { version = text "1"; changelog = text "Version 1"; source = text "/u1" }

abbrev second_update : PendingUpdate
second_update = record { version = text "2"; changelog = text "Version 2"; source = text "/u2" }

abbrev stuck : Live
stuck = late_state first_update second_update (percent 50) (text "d")

abbrev run : Steps false started stuck
run = reached first_update second_update (percent 50) (text "d")

Steps-Accounted_example :
    (stuck.pending_update ≡ shown_at stuck.place)
    × (length stuck.channel ≤ 1)
    × (confirmed run ≡ begun run + on_the_way stuck)
Steps-Accounted_example = Steps-Accounted stuck run

late_report-awaits_example :
    Steps false started stuck
    × (stuck.place ≡ awaiting second_update)
    × ((x : ServiceError) × (confirm_update true (view env stuck) ≡ (err x, view env stuck)))
late_report-awaits_example =
    late_report-awaits first_update second_update (percent 50) (text "d") host env true stuck
      at_once

abbrev named_entry : Text → Entry
named_entry path = record {
  path = ok path;
  read_to_string = ok (text "Version 2");
  read_to_end = ok (1 ∷ []);
  entry_size = ok 9;
  stream = polls;
}

abbrev archives : Sources host
archives = record {
  get = λ s u. err (text "offline");
  open_file = λ s path. ok (
      ok (
        ok (named_entry (text "CHANGELOG"))
        ∷ ok (named_entry (text "update.signature"))
        ∷ ok (named_entry (text "update.btrfs.xz"))
        ∷ []));
}

-- A decision to accept waits for the first update, and none for the second one.
abbrev decided_before : Live
decided_before = record started { channel = true ∷ [] }

generate_header-Agrees_example :
    (find (name embuer_get_status) (prototypes generate_header)
      ≡ some (signature embuer_get_status))
    × (find (text "x") (prototypes generate_header) ≡ find (text "x") (signatures exports))
    × (find (code_name embuer_err_dbus) (defines generate_header) ≡ some (value embuer_err_dbus))
    × (mem (as_str idle) (statuses generate_header) ≡ true)
generate_header-Agrees_example =
    generate_header-Agrees embuer_get_status embuer_err_dbus idle (text "x")
