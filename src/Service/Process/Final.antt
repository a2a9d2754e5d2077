-- ===== src/Service/Process/Final.antt =====
-- src/service.rs, `process_update_entry`: the status that each end of an update leaves.
use embuer.Base.{ℕ, List, [], ◌∷◌, Bool, true, false, Option, none, some, Result, ok, err}
use embuer.Text.{Text}
use embuer.Error.{ServiceError}
use embuer.Host.{Host, Env, Failure, error, panic, abort}
use embuer.Status.{UpdateStatus, completed, failed}
use embuer.Stream.{Poll}
use embuer.Service.State.{ServiceInner, ServiceState}
use embuer.Service.Version.{extract_version_from_changelog}
use embuer.Service.Process.{
  External, Outcome, decided, await_confirmation, ask_consent, consent, after_clearing,
  after_install, install, install_if, with_contents, process_update_entry,
}

-- The result of an update, as its source knows it.
pub data IsFinal (source : Text) : UpdateStatus → Type 0 where
  done : (deployment : Text) → IsFinal source (completed source deployment)
  gone : (message : Text) → IsFinal source (failed source message)

-- What each way to end leaves: with `Ok`, a final status; with an error, the state as it was. A
-- panic leaves anything.
pub data Ends {H : Host} (source : Text) (s : ServiceState H) : Outcome H → Type 0 where
  ends : (b : Bool) (t : ServiceState H) → IsFinal source t.update_status → Ends source s (ok b, t)
  unchanged : (e : ServiceError) → Ends source s (err (error e), s)
  dies : (t : ServiceState H) → Ends source s (err panic, t)
  stops : (t : ServiceState H) → Ends source s (err abort, t)

module _ (X : External) {H : Host} (inner : ServiceInner) (source : Text)
    (s₀ : ServiceState H) where
  after_clearing-Ends :
      (deployment : Text) (s : ServiceState H) (r : Result Failure ℕ × Env H)
      → Ends source s₀ (after_clearing X inner source deployment s r)
  unfolding after_clearing
  after_clearing-Ends deployment s (err panic, e) = dies _
  after_clearing-Ends deployment s (err abort, e) = stops _
  after_clearing-Ends deployment s (err (error x), e) = ends true _ (done deployment)
  after_clearing-Ends deployment s (ok n, e) = ends true _ (done deployment)

  after_install-Ends :
      (r : Result Failure (Option Text)) (s : ServiceState H)
      → Ends source s₀ (after_install X inner source r s)
  unfolding after_install
  after_install-Ends (ok (some deployment)) s = after_clearing-Ends deployment _ _
  after_install-Ends (ok none) s = ends true _ (gone _)
  after_install-Ends (err (error x)) s = ends true _ (gone _)
  after_install-Ends (err panic) s = dies _
  after_install-Ends (err abort) s = stops _

  install-Ends :
      (signature : List ℕ) (stream : List Poll) (size : ℕ) (s : ServiceState H)
      → Ends source s₀ (install X inner source signature stream size s)
  unfolding install
  install-Ends signature stream size s = after_install-Ends _ _

  decided-Ends :
      (signature : List ℕ) (stream : List Poll) (size : ℕ) (t : ServiceState H) (ds : List Bool)
      → Ends source s₀ (install_if X inner source signature stream size (decided source t ds))
  unfolding install_if decided
  decided-Ends signature stream size t [] = ends false _ (gone _)
  decided-Ends signature stream size t (false ∷ ds) = ends false _ (gone _)
  decided-Ends signature stream size t (true ∷ ds) = install-Ends signature stream size _

  with_contents-Ends :
      (auto : Bool) (stream : List Poll) (size : ℕ) (changelog : Text) (signature : List ℕ)
      → Ends source s₀ (with_contents X inner source auto stream size changelog signature s₀)
  unfolding with_contents consent ask_consent install_if
  with_contents-Ends true stream size changelog signature = install-Ends signature stream size s₀
  with_contents-Ends false stream size changelog signature =
      decided-Ends signature stream size
        (await_confirmation source (extract_version_from_changelog X.is_alphanumeric changelog)
          changelog s₀)
        s₀.decisions

  -- An update entry that ends with `Ok`, on any path, leaves `Completed` or `Failed` with its own
  -- source as the status. One that ends with an error has changed nothing of the state. Nothing is
  -- said of the state that a panic leaves.
  pub process_update_entry-Ends :
      (auto : Bool) (changelog signature : Option (List ℕ)) (stream : List Poll) (size : ℕ)
      → Ends source s₀ (process_update_entry X inner source auto changelog signature stream size s₀)
  unfolding process_update_entry
  process_update_entry-Ends auto none signature stream size = unchanged _
  process_update_entry-Ends auto (some c) none stream size = unchanged _
  process_update_entry-Ends auto (some c) (some sig) stream size =
      with_contents-Ends auto stream size c sig
