-- ===== src/Service/Process.antt =====
-- src/service.rs, `process_update_entry`: the confirmation, the installation, and the clearing
-- behind it. The crates that the service calls are the parameter `External`.
pub mod Final
pub mod Late
pub mod Decisions
use embuer.Base.{ℕ, List, [], ◌∷◌, ◌++◌, Bool, true, false, Option, none, some, Result, ok, err}
use embuer.Text.{Text, text}
use embuer.Error.{io_other, display}
use embuer.Host.{Host, Env, Failure, error, panic, abort}
use embuer.Status.{
  UpdateStatus, clearing, installing, awaiting_confirmation, completed, failed, percent,
}
use embuer.Crypto.{Crypto}
use embuer.Manifest.{Manifest}
use embuer.Stream.{Poll, Reader, scripted}
use embuer.Stream.Progress
use embuer.Stream.Progress.{Float, ProgressReader}
use embuer.Install.{install_update}
use embuer.Service.State.{PendingUpdate, ServiceInner, ServiceState, set_status, set_pending}
use embuer.Service.Version.{extract_version_from_changelog}
use embuer.Service.Clear.{clear_old_deployments}

pub record External : Type 1 where
  pub crypto : Crypto
  pub float : Float
  -- `serde_json` at the manifest, `char::is_alphanumeric`
  pub manifest : Text → Result Text Manifest
  pub is_alphanumeric : ℕ → Bool
  -- the milliseconds at each poll
  pub clock : ℕ → ℕ

-- What the task goes on with: the value that it returned, or nothing after a panic.
abbrev pub Outcome : Host → Type 0
Outcome H = Result Failure Bool × ServiceState H

-- `Ok(true)` goes on with the installation; otherwise the update has ended.
pub data Consent (H : Host) : Type 0 where
  proceed : ServiceState H → Consent H
  stop : ServiceState H → Consent H

module _ {H : Host} (source_desc : Text) where
  -- What `recv` gave. No decision means that the channel was closed.
  unfoldable pub decided : ServiceState H → List Bool → Consent H
  decided s [] =
      stop
        (set_status (failed source_desc (text "Confirmation channel closed")) (set_pending none s))
  decided s (true ∷ rest) = proceed (record s { pending_update = none; decisions = rest })
  decided s (false ∷ rest) = stop (
      set_status (failed source_desc (text "Update rejected by user"))
        (record s { pending_update = none; decisions = rest }))

  -- The pending update is shown to the clients.
  unfoldable pub await_confirmation : Text → Text → ServiceState H → ServiceState H
  await_confirmation version changelog s = set_status (awaiting_confirmation version source_desc) (
      set_pending (some (record { version = version; changelog = changelog; source = source_desc }))
        s)

  -- A decision is awaited.
  unfoldable pub ask_consent : Text → Text → ServiceState H → Consent H
  unfolding decided await_confirmation
  ask_consent version changelog s = decided (await_confirmation version changelog s) s.decisions

  unfoldable pub consent : Bool → Text → Text → ServiceState H → Consent H
  unfolding ask_consent
  consent auto_install version changelog s = elim auto_install [
    | true ↦ proceed s
    | false ↦ ask_consent version changelog s
  ]

module _ (X : External) {H : Host} (inner : ServiceInner) (source_desc : Text) where
  -- The clearing behind an installation; its failure is only logged.
  unfoldable pub after_clearing : Text → ServiceState H → Result Failure ℕ × Env H → Outcome H
  after_clearing deployment s (err panic, e) = (err panic, record s { env = e })
  after_clearing deployment s (err abort, e) = (err abort, record s { env = e })
  after_clearing deployment s (r, e) =
      (ok true, set_status (completed source_desc deployment) (record s { env = e }))

  -- The final status, by the result of the installation.
  unfoldable pub after_install : Result Failure (Option Text) → ServiceState H → Outcome H
  after_install (ok (some deployment)) s =
      after_clearing deployment (set_status clearing s)
        (clear_old_deployments X.manifest H inner s.env)
  after_install (ok none) s =
      (ok true, set_status (failed source_desc (text "Deployment name not returned")) s)
  after_install (err (error e)) s = (ok true, set_status (failed source_desc (display e)) s)
  after_install (err panic) s = (err panic, s)
  after_install (err abort) s = (err abort, s)

  -- The status at the start, the stream behind its `ProgressReader`, and the installation.
  unfoldable pub install : List ℕ → List Poll → ℕ → ServiceState H → Outcome H
  install signature update_stream update_size s =
      let (result, reader, e) =
        install_update X.crypto X.manifest H (Progress.poll_read X.float X.clock scripted)
          (some (inner.pubkey, signature)) inner.rootfs_dir inner.deployments_dir inner.boot_name
          (Progress.new (X.clock 0) update_stream (some update_size) source_desc) s.env in
      after_install result (record s {
        env = e;
        update_status = installing source_desc (percent 0);
        spawned = s.spawned ++ reader.spawned;
      })

  unfoldable pub install_if : List ℕ → List Poll → ℕ → Consent H → Outcome H
  install_if signature update_stream update_size (stop s) = (ok false, s)
  install_if signature update_stream update_size (proceed s) =
      install signature update_stream update_size s

  unfoldable pub with_contents : Bool → List Poll → ℕ → Text → List ℕ → ServiceState H → Outcome H
  with_contents auto_install update_stream update_size changelog signature s =
      install_if signature update_stream update_size (
        consent source_desc auto_install
          (extract_version_from_changelog X.is_alphanumeric changelog) changelog s)

  unfoldable pub process_update_entry :
      Bool → Option Text → Option (List ℕ) → List Poll → ℕ → ServiceState H → Outcome H
  process_update_entry auto_install none signature_content update_stream update_size s =
      (err (error (io_other (text "CHANGELOG not found in archive"))), s)
  process_update_entry auto_install (some changelog) none update_stream update_size s =
      (err (error (io_other (text "update.signature not found in archive"))), s)
  process_update_entry auto_install (some changelog) (some signature) update_stream update_size s =
      with_contents auto_install update_stream update_size changelog signature s
