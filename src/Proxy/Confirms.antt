-- ===== src/Proxy/Confirms.antt =====
-- src/dbus.rs with src/service.rs: what a client knows of a decision that was accepted.
use embuer.Base.{Bool, true, false, Result, ok, [], ◌∷◌, ◌++◌, ◌≡◌, ap, sym}
use embuer.Text.{Text}
use embuer.Error.{ServiceError}
use embuer.Host.{Host}
use embuer.Service.State.{ServiceState}
use embuer.Service.Confirm.Stale.{Awaits, Answered, queued, refused, confirm_update-Answered}
use embuer.Dbus as dbus
use embuer.Dbus.{confirmed}
use embuer.Proxy.{Link, up, down, lost, System, answer, with_service, confirm_update}

-- The service awaited a decision, and this one is now behind those that wait.
pub record Queues {H : Host} (accepted : Bool) (s t : System H) : Type 0 where
  pub awaits : Awaits s.service
  pub queue :
      t
      ≡ record s { service = record s.service { decisions = s.service.decisions ++ accepted ∷ [] } }

module _ {H : Host} (accepted : Bool) (s : System H) where
  served :
      (r : Result ServiceError (Unit {0}) × ServiceState H)
      → Answered accepted s.service r
      → (msg : Text) (t : System H) → with_service s (confirmed accepted r) ≡ (ok msg, t)
      → Queues accepted s t
  unfolding confirmed
  served _ (queued w) msg t h = record { awaits = w; queue = said accepted h }
    where
      said :
          (b : Bool) {u : ServiceState H}
          → with_service s (confirmed b (ok tt, u)) ≡ (ok msg, t)
          → t ≡ record s { service = u }
      said true p = sym (ap (λ r. r.1) p)
      said false p = sym (ap (λ r. r.1) p)
  served _ (refused e n) msg t h = cc (ap (λ r. r.0) h)

  -- When a client is told that its decision was taken, an update awaited one, and the decision is in
  -- the queue of the service, with nothing else changed.
  pub confirm_update-Queues :
      (link : Link) (msg : Text) (t : System H)
      → confirm_update accepted link s ≡ (ok msg, t)
      → Queues accepted s t
  unfolding confirm_update answer dbus.confirm_update
  confirm_update-Queues up msg t h = served _ (confirm_update-Answered accepted s.service) msg t h
  confirm_update-Queues (down e) msg t h = cc (ap (λ r. r.0) h)
  confirm_update-Queues (lost e) msg t h = cc (ap (λ r. r.0) h)
