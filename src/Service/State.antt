-- ===== src/Service/State.antt =====
-- src/service.rs: `UpdateSource`, `PendingUpdate` and `ServiceInner`. What never changes while the
-- service runs is `ServiceInner`; what its locks and channels guard is `ServiceState`.
use embuer.Base.{ℕ, Bool, Option, List, [], ◌∷◌}
use embuer.Text.{Text}
use embuer.Host.{Host, Env}
use embuer.Status.{UpdateStatus}
use embuer.Signature.{PublicKey}

pub data UpdateSource : Type 0 where
  url : Text → UpdateSource
  file : Text → UpdateSource

pub record PendingUpdate : Type 0 where
  pub version : Text
  pub changelog : Text
  pub source : Text

pub record ServiceInner : Type 0 where
  pub pubkey : PublicKey
  pub rootfs_dir : Text
  pub deployments_dir : Text
  -- the subvolume that is running, and its name
  pub boot_id : ℕ
  pub boot_name : Text

pub record ServiceState (H : Host) : Type 0 where
  pub env : Env H
  pub update_status : UpdateStatus
  pub pending_update : Option PendingUpdate
  -- The decisions that `recv` will give in turn: those in the channel, then those of the senders
  -- that wait for room in it. A sender that finds the channel full waits, and keeps its place.
  pub decisions : List Bool
  -- status updates that readers have spawned and the scheduler has not run
  pub spawned : List UpdateStatus

module _ {H : Host} where
  -- `ServiceInner::set_status`
  abbrev pub set_status : UpdateStatus → ServiceState H → ServiceState H
  set_status status s = record s { update_status = status }

  abbrev pub set_pending : Option PendingUpdate → ServiceState H → ServiceState H
  set_pending p s = record s { pending_update = p }

  -- The scheduler runs the first status update that waits.
  unfoldable pub run_spawned : List UpdateStatus → ServiceState H → ServiceState H
  run_spawned [] s = s
  run_spawned (status ∷ rest) s = record s { update_status = status; spawned = rest }
