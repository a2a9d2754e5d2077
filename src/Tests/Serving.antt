-- ===== src/Tests/Serving.antt =====
-- src/service.rs: the theorems on requests, updates and confirmations, at a small service.
use embuer.Base.{List, [], ◌∷◌, ◌≡◌, refl, true, false, none, some, Result, ok, err}
use embuer.Text.{Text, text}
use embuer.Error.{ServiceError}
use embuer.Status.{checking, awaiting_confirmation}
use embuer.Service.State.{url, file, PendingUpdate, ServiceState, set_status}
use embuer.Service.Start.{initial}
use embuer.Service.Confirm.{confirm_update}
use embuer.Service.Confirm.Stale.{Awaits, ends_with, confirm_update-stale}
use embuer.Service.Process.{proceed, install_if, await_confirmation, consent, process_update_entry}
use embuer.Service.Process.Decisions.{Settled, process_update_entry-Settled}
use embuer.Service.Process.Final.{Ends, process_update_entry-Ends}
use embuer.Service.Requests.{
  Entry, Sources, next, extract_url_update_contents, contents, handle_request, update_request_loop,
}
use embuer.Service.Requests.Holds.{FlowHolds}
use embuer.Service.Requests.Leave.{AllReject, Untouched, update_request_loop-Untouched}
use embuer.Service.Requests.Fifo.{submit_all, holding, serve_all, update_request_loop-Serves}
use embuer.Service.Requests.Ends.{
  changelog, one_more, nothing as no_entry, handle_request-NoUpdates,
}
use embuer.Tests.World.{external, host, env, inner, polls}

abbrev idle_state : ServiceState host
idle_state = initial env

abbrev rejecting : ServiceState host
rejecting = record idle_state { decisions = false ∷ [] }

abbrev changelog_entry : Entry
changelog_entry = record {
  path = ok (text "CHANGELOG");
  read_to_string = ok (text "Version 2");
  read_to_end = ok (text "Version 2");
  entry_size = ok 9;
  stream = polls;
}

abbrev entries : List (Result Text Entry)
entries = ok changelog_entry ∷ []

abbrev sources : Sources host
sources = record {
  get = λ s u. ok (record { is_success = true; body = ok entries });
  open_file = λ s path. err (text "not found");
}

abbrev pending_update : PendingUpdate
pending_update = record { version = text "2"; changelog = text "Version 2"; source = text "u" }

abbrev waiting : ServiceState host
waiting = record idle_state {
  update_status = awaiting_confirmation (text "2") (text "u");
  pending_update = some pending_update;
}

process_update_entry-Settled_example :
    Settled false rejecting
      (process_update_entry external inner
        (text "u")
        false
        (some (text "Version 2"))
        (some (3 ∷ []))
        polls
        9
        rejecting).1
process_update_entry-Settled_example =
    process_update_entry-Settled external inner (text "u") false (some (text "Version 2"))
      (some (3 ∷ [])) polls 9 rejecting refl

process_update_entry-Ends_example : Ends (text "u") idle_state (
    process_update_entry external inner
      (text "u")
      true
      (some (text "Version 2"))
      (some (3 ∷ []))
      polls
      9
      idle_state)
process_update_entry-Ends_example =
    process_update_entry-Ends external inner (text "u") idle_state true (some (text "Version 2"))
      (some (3 ∷ [])) polls 9

all_reject : AllReject (false ∷ [])
unfolding AllReject
all_reject = tt

update_request_loop-Untouched_example : FlowHolds (Untouched env) (Untouched env) (
    update_request_loop external sources inner false
      (url (text "u") ∷ file (text "f") ∷ [])
      rejecting)
update_request_loop-Untouched_example =
    update_request_loop-Untouched external inner env sources (url (text "u") ∷ file (text "f") ∷ [])
      rejecting refl all_reject refl

update_request_loop-Serves_example :
    update_request_loop external sources inner true
      (submit_all host 0 (url (text "u") ∷ file (text "f") ∷ []) (holding [])).queue
      idle_state
    ≡ serve_all external sources inner true 0 (url (text "u") ∷ file (text "f") ∷ []) idle_state
update_request_loop-Serves_example =
    update_request_loop-Serves external sources inner true 0 (url (text "u") ∷ file (text "f") ∷ [])
      idle_state

opened : contents external sources inner true (url (text "u")) 0 ≡ ok (ok entries)
unfolding contents extract_url_update_contents
opened = refl

handle_request-NoUpdates_example :
    handle_request external sources inner true (url (text "u")) idle_state
    ≡ next (set_status checking idle_state)
handle_request-NoUpdates_example =
    handle_request-NoUpdates external inner true sources (url (text "u")) entries idle_state opened
      (one_more _ _ (changelog changelog_entry (text "Version 2") refl refl) no_entry)

abbrev waits : Awaits waiting
waits = record {
  version = text "2";
  source = text "u";
  update = pending_update;
  status = refl;
  pending = refl;
}

abbrev both_confirmed : Result ServiceError (Unit {0}) × ServiceState host
both_confirmed = confirm_update true (confirm_update true waiting).1

abbrev afterwards : ServiceState host
afterwards =
    set_status checking
      (install_if external inner (text "u") (3 ∷ []) polls 9
        (ends_with (text "u") both_confirmed.1)).1

confirm_update-stale_example :
    (both_confirmed.0 ≡ ok tt)
    × (consent (text "next") false (text "3") (text "Version 3") afterwards
        ≡ proceed
            (record (await_confirmation (text "next") (text "3") (text "Version 3") afterwards) {
              pending_update = none;
              decisions = [];
            }))
confirm_update-stale_example =
    confirm_update-stale external inner true (text "u") (3 ∷ []) polls 9 waiting waits refl checking
      (text "next") (text "3") (text "Version 3")
