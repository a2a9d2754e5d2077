-- ===== src/Service/Confirm.antt =====
-- src/service.rs, `confirm_update`: a decision is sent only while an update awaits one.
pub mod Stale
use embuer.Base.{Bool, true, false, [], ◌∷◌, ◌++◌, Option, none, some, Result, ok, err}
use embuer.Text.{Text, text}
use embuer.Error.{ServiceError, io_error, invalid_input}
use embuer.Host.{Host}
use embuer.Status.{UpdateStatus, awaiting_confirmation}
use embuer.Service.State.{PendingUpdate, ServiceState}

unfoldable pub is_awaiting : UpdateStatus → Bool
is_awaiting (awaiting_confirmation version source) = true
is_awaiting _ = false

unfoldable pub refuse : Text → Result ServiceError (Unit {0})
refuse message = err (io_error (record { kind = invalid_input; message = message }))

-- The two checks before a decision is sent.
unfoldable pub may_confirm : Bool → Option PendingUpdate → Result ServiceError (Unit {0})
unfolding refuse
may_confirm false pending =
    refuse (text "Cannot confirm update: no update is awaiting confirmation")
may_confirm true none = refuse (text "Cannot confirm update: no pending update found")
may_confirm true (some p) = ok tt

-- A decision goes behind those that wait. The receiver lives as long as the loop, so that a send
-- waits for room at most.
unfoldable pub sent :
    {H : Host}
    → Bool
    → ServiceState H
    → Result ServiceError (Unit {0})
    → Result ServiceError (Unit {0}) × ServiceState H
sent accepted s (err e) = (err e, s)
sent accepted s (ok _) = (ok tt, record s { decisions = s.decisions ++ accepted ∷ [] })

unfoldable pub confirm_update :
    {H : Host} → Bool → ServiceState H → Result ServiceError (Unit {0}) × ServiceState H
unfolding is_awaiting may_confirm sent
confirm_update accepted s =
    sent accepted s (may_confirm (is_awaiting s.update_status) s.pending_update)
