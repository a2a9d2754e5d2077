-- ===== src/Proxy.antt =====
-- src/dbus.rs, `EmbuerDBusProxy`: the calls that `#[proxy]` makes of the interface, as the clients
-- use them. The bus is zbus's, a parameter: a `Link` says how a call fares on it.
pub mod Confirms
use embuer.Base.{ℕ, Bool, Result, ok, err}
use embuer.Text.{Text}
use embuer.Host.{Host}
use embuer.Service.State.{ServiceInner, ServiceState}
use embuer.Dbus.{Requests, Shown}
use embuer.Dbus as dbus

pub data Link : Type 0 where
  up : Link
  -- there is no connection, or the call does not arrive
  down : Text → Link
  -- the call is served and its reply is lost
  lost : Text → Link

-- The service with the channel of its requests.
pub record System (H : Host) : Type 0 where
  pub inner : ServiceInner
  pub service : ServiceState H
  pub requests : Requests

module _ {H : Host} where
  -- What a client has of a call: `served` is what the service makes of it in the state `s`.
  unfoldable pub answer :
      {A : Type 0} → Link → System H → Result Text A × System H → Result Text A × System H
  answer up s served = served
  answer (down e) s served = (err e, s)
  answer (lost e) s (r, served) = (err e, served)

  abbrev pub with_requests :
      {A : Type 0} → System H → Result Text A × Requests → Result Text A × System H
  with_requests s (r, q) = (r, record s { requests = q })

  abbrev pub with_service :
      {A : Type 0} → System H → Result Text A × ServiceState H → Result Text A × System H
  with_service s (r, t) = (r, record s { service = t })

  unfoldable pub get_update_status : Link → System H → Result Text Shown × System H
  unfolding answer
  get_update_status link s = answer link s (ok (dbus.get_update_status s.service), s)

  unfoldable pub get_boot_info : Link → System H → Result Text (ℕ × Text) × System H
  unfolding answer
  get_boot_info link s = answer link s (ok (dbus.get_boot_info s.inner), s)

  unfoldable pub get_pending_update : Link → System H → Result Text (Text × Text × Text) × System H
  unfolding answer
  get_pending_update link s = answer link s (dbus.get_pending_update s.service, s)

  unfoldable pub install_update_from_file : Text → Link → System H → Result Text Text × System H
  unfolding answer
  install_update_from_file path link s =
      answer link s
        (with_requests s (dbus.install_update_from_file H s.service.env.host path s.requests))

  unfoldable pub install_update_from_url : Text → Link → System H → Result Text Text × System H
  unfolding answer
  install_update_from_url u link s =
      answer link s (with_requests s (dbus.install_update_from_url u s.requests))

  unfoldable pub confirm_update : Bool → Link → System H → Result Text Text × System H
  unfolding answer
  confirm_update accepted link s =
      answer link s (with_service s (dbus.confirm_update accepted s.service))
