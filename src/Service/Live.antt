-- ===== src/Service/Live.antt =====
-- src/service.rs and src/progress_stream.rs: how the tasks of the service interleave. Each write of
-- shared state, and each send and receive, is a step of `update_request_loop`, of a call of
-- `confirm_update`, or of a spawned status update, in any order. What the archives, the installations
-- and the clearings come to is any of their results. A panic of the loop is no step: then it makes
-- none. Left out are the reports of a copy that goes on behind an installation that has failed.
pub mod Ledger
pub mod Stuck
pub mod Runs
pub mod Closing
pub mod Entries
pub mod Loop
use embuer.Base.{
  Bool, true, false, Option, none, some, List, [], ◌∷◌, ◌++◌, ◌≡◌, ◌⊎◌, Result, ok, err,
}
use embuer.Text.{Text, text}
use embuer.Host.{Host, Env}
use embuer.Status.{
  UpdateStatus, idle, checking, clearing, installing, awaiting_confirmation, completed, failed,
  Progress, percent,
}
use embuer.Service.State.{PendingUpdate, ServiceState}
use embuer.Service.Confirm.{is_awaiting}

-- Where `update_request_loop` is, with the description of the source that it handles.
pub data Place : Type 0 where
  -- at `update_rx.recv()`
  at_request : Place
  -- at the entries of an archive
  at_entries : Text → Place
  -- the pending update is set, and its status is not
  showing : PendingUpdate → Place
  -- at `confirmation_rx.recv()`
  awaiting : PendingUpdate → Place
  -- a decision was received, and the pending update is still set
  received : PendingUpdate → Bool → Place
  -- the pending update is cleared
  rejecting accepted : Text → Place
  -- in `install_update`, and in `clear_old_deployments` for the new deployment
  in_install : Text → Place
  in_clearing : Text → Text → Place

pub record Live : Type 0 where
  pub place : Place
  pub update_status : UpdateStatus
  pub pending_update : Option PendingUpdate
  -- the decisions in the channel, which has room for one
  pub channel : List Bool
  -- the calls of `confirm_update` behind their first check, and behind the second one
  pub checked : List Bool
  pub senders : List Bool
  -- the status updates that were spawned and have not run
  pub spawned : List UpdateStatus

module _ (auto_install : Bool) where
  pub data Step (t : Live) : Live → Type 0 where
    -- The loop takes a request.
    requested :
        (source : Text)
        → t.place ≡ at_request
        → Step t (record t { place = at_entries source; update_status = checking })
    -- There is no update at the URL.
    none_available :
        (source : Text)
        → t.place ≡ at_entries source
        → Step t (record t { place = at_request; update_status = idle })
    -- The archive, or what stands in it, cannot be read.
    unreadable :
        (source error : Text)
        → t.place ≡ at_entries source
        → Step t (record t { place = at_request; update_status = failed source error })
    -- The archive is at its end, or misses a part.
    archive_ends :
        (source : Text) → t.place ≡ at_entries source → Step t (record t { place = at_request })
    -- An update entry, with updates that are installed automatically.
    unasked :
        (source : Text)
        → auto_install ≡ true
        → t.place ≡ at_entries source
        → Step t (record t { place = accepted source })
    -- An update entry that needs a decision: the two writes, and the receive.
    shown :
        (update : PendingUpdate)
        → auto_install ≡ false
        → t.place ≡ at_entries update.source
        → Step t (record t { place = showing update; pending_update = some update })
    asked :
        (update : PendingUpdate)
        → t.place ≡ showing update
        → Step t (record t {
          place = awaiting update;
          update_status = awaiting_confirmation update.version update.source;
        })
    taken :
        (update : PendingUpdate) (decision : Bool) (rest : List Bool)
        → t.place ≡ awaiting update
        → t.channel ≡ decision ∷ rest
        → Step t (record t { place = received update decision; channel = rest })
    -- The pending update is cleared, by the decision.
    goes_on :
        (update : PendingUpdate)
        → t.place ≡ received update true
        → Step t (record t { place = accepted update.source; pending_update = none })
    turns_back :
        (update : PendingUpdate)
        → t.place ≡ received update false
        → Step t (record t { place = rejecting update.source; pending_update = none })
    rejected :
        (source : Text)
        → t.place ≡ rejecting source
        → Step t (record t {
          place = at_request;
          update_status = failed source (text "Update rejected by user");
        })
    -- The installation, and the status updates that its reader spawns.
    installs :
        (source : Text)
        → t.place ≡ accepted source
        → Step t
            (record t { place = in_install source; update_status = installing source (percent 0) })
    reports :
        (source : Text) (progress : Progress)
        → t.place ≡ in_install source
        → Step t (record t { spawned = t.spawned ++ installing source progress ∷ [] })
    install_fails :
        (source error : Text)
        → t.place ≡ in_install source
        → Step t (record t { place = at_entries source; update_status = failed source error })
    clears :
        (source deployment : Text)
        → t.place ≡ in_install source
        → Step t (record t { place = in_clearing source deployment; update_status = clearing })
    completes :
        (source deployment : Text)
        → t.place ≡ in_clearing source deployment
        → Step t
            (record t { place = at_entries source; update_status = completed source deployment })
    -- A call of `confirm_update`: its first check, its second one, and its send. A call that is
    -- refused changes nothing.
    status_checked :
        (decision : Bool)
        → is_awaiting t.update_status ≡ true
        → Step t (record t { checked = t.checked ++ decision ∷ [] })
    pending_checked :
        (before after : List Bool) (decision : Bool) (update : PendingUpdate)
        → t.checked ≡ before ++ decision ∷ after
        → t.pending_update ≡ some update
        → Step t (record t { checked = before ++ after; senders = t.senders ++ decision ∷ [] })
    not_pending :
        (before after : List Bool) (decision : Bool)
        → t.checked ≡ before ++ decision ∷ after
        → t.pending_update ≡ none
        → Step t (record t { checked = before ++ after })
    -- The channel gives its room to the senders in the order in which they came.
    sends :
        (decision : Bool) (rest : List Bool)
        → t.channel ≡ []
        → t.senders ≡ decision ∷ rest
        → Step t (record t { channel = decision ∷ []; senders = rest })
    -- The scheduler runs any of the status updates.
    runs :
        (before after : List UpdateStatus) (status : UpdateStatus)
        → t.spawned ≡ before ++ status ∷ after
        → Step t (record t { update_status = status; spawned = before ++ after })

  pub data Steps (t : Live) : Live → Type 0 where
    at_once : Steps t t
    then : (u v : Live) → Steps t u → Step u v → Steps t v

-- `Service::new`
abbrev pub started : Live
started = record {
  place = at_request;
  update_status = idle;
  pending_update = none;
  channel = [];
  checked = [];
  senders = [];
  spawned = [];
}

-- What the functions that run one after the other see of it.
abbrev pub view : {H : Host} → Env H → Live → ServiceState H
view e t = record {
  env = e;
  update_status = t.update_status;
  pending_update = t.pending_update;
  decisions = t.channel ++ t.senders;
  spawned = t.spawned;
}
