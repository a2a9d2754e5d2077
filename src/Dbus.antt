-- ===== src/Dbus.antt =====
-- src/dbus.rs: the D-Bus interface of the service. A handler gives its reply, or the text of an
-- `fdo::Error::Failed`.
pub mod Monitor
use embuer.Base.{
  ℕ, List, [], ◌∷◌, ◌++◌, Bool, true, false, Option, none, some, Result, ok, err, if◌then◌else◌,
}
use embuer.Text.{Text, text}
use embuer.Error.{ServiceError, display}
use embuer.Host.{Host}
use embuer.Status.{UpdateStatus, Progress, as_str, details, progress}
use embuer.Service.State.{UpdateSource, url, file, PendingUpdate, ServiceInner, ServiceState}
use embuer.Service.Confirm.{confirm_update as service_confirm_update}

-- The channel `update_tx`: whether the loop still receives, and the requests that it holds or that
-- wait for room in it, in their order.
pub record Requests : Type 0 where
  pub is_open : Bool
  pub queue : List UpdateSource

-- `update_tx.send(request)`
abbrev pub send : UpdateSource → Text → Requests → Result Text Text × Requests
send source reply q =
    if q.is_open
    then (ok reply, record q { queue = q.queue ++ source ∷ [] })
    else (err (text "Failed to send update request: channel closed"), q)

unfoldable pub install_update_from_file :
    (H : Host) → H.State → Text → Requests → Result Text Text × Requests
install_update_from_file H s file_path q =
    if H.exists s file_path
    then send (file file_path) (text "Update request queued for file: " ++ file_path) q
    else (err (text "File does not exist: " ++ file_path), q)

unfoldable pub install_update_from_url : Text → Requests → Result Text Text × Requests
install_update_from_url u q = send (url u) (text "Update request queued for URL: " ++ u) q

-- What a client sees of a status.
abbrev pub Shown : Type 0
Shown = Text × Text × Progress

unfoldable pub shown : UpdateStatus → Shown
shown s = (as_str s, details s, progress s)

module _ {H : Host} where
  unfoldable pub get_update_status : ServiceState H → Shown
  unfolding shown
  get_update_status s = shown s.update_status

  unfoldable pub get_pending_update : ServiceState H → Result Text (Text × Text × Text)
  get_pending_update s = elim s.pending_update [
    | some p ↦ ok (p.version, p.changelog, p.source)
    | none ↦ err (text "No pending update awaiting confirmation")
  ]

  unfoldable pub confirmed :
      Bool → Result ServiceError (Unit {0}) × ServiceState H → Result Text Text × ServiceState H
  confirmed accepted (err e, s) = (err (text "Failed to confirm update: " ++ display e), s)
  confirmed true (ok _, s) = (ok (text "Update accepted, installation will proceed"), s)
  confirmed false (ok _, s) = (ok (text "Update rejected"), s)

  unfoldable pub confirm_update : Bool → ServiceState H → Result Text Text × ServiceState H
  unfolding confirmed service_confirm_update
  confirm_update accepted s = confirmed accepted (service_confirm_update accepted s)

unfoldable pub get_boot_info : ServiceInner → ℕ × Text
get_boot_info inner = (inner.boot_id, inner.boot_name)
