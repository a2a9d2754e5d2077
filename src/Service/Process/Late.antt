-- ===== src/Service/Process/Late.antt =====
-- src/service.rs, `process_update_entry`, with the status updates that the reader has spawned.
use mathlib.Core.Path.{subst}
use embuer.Base.{
  ℕ, List, [], ◌∷◌, ◌≡◌, refl, ap, Bool, true, false, Option, none, some, Result, ok, err, All,
  All-append,
}
use embuer.Text.{Text}
use embuer.Host.{Host, Env, Failure, error, panic, abort}
use embuer.Status.{UpdateStatus, clearing}
use embuer.Stream.{Poll, scripted}
use embuer.Stream.Hashing
use embuer.Stream.Progress
use embuer.Stream.Progress.Reports.{IsReport, copy-Reports}
use embuer.Receive.{receive_btrfs_stream}
use embuer.Install.{install_update}
use embuer.Service.State.{ServiceInner, ServiceState, set_status, run_spawned}
use embuer.Service.Version.{extract_version_from_changelog}
use embuer.Service.Clear.{clear_old_deployments}
use embuer.Service.Process.{
  External, Outcome, decided, await_confirmation, ask_consent, consent, after_clearing,
  after_install, install, install_if, with_contents, process_update_entry,
}
use embuer.Service.Process.Final.{IsFinal, Ends, ends, process_update_entry-Ends}

module _ (X : External) {H : Host} (inner : ServiceInner) (source : Text) where
  -- Whatever waits to be run is a report on this source.
  abbrev Waiting : ServiceState H → Type 0
  Waiting s = All (IsReport source) s.spawned

  after_clearing-Waiting :
      (deployment : Text) (s : ServiceState H) (r : Result Failure ℕ × Env H)
      → Waiting s
      → Waiting (after_clearing X inner source deployment s r).1
  unfolding after_clearing
  after_clearing-Waiting deployment s (err panic, e) h = h
  after_clearing-Waiting deployment s (err abort, e) h = h
  after_clearing-Waiting deployment s (err (error x), e) h = h
  after_clearing-Waiting deployment s (ok n, e) h = h

  after_install-Waiting :
      (r : Result Failure (Option Text)) (s : ServiceState H)
      → Waiting s
      → Waiting (after_install X inner source r s).1
  unfolding after_install
  after_install-Waiting (ok (some deployment)) s h =
      after_clearing-Waiting deployment (set_status clearing s)
        (clear_old_deployments X.manifest H inner s.env) h
  after_install-Waiting (ok none) s h = h
  after_install-Waiting (err (error x)) s h = h
  after_install-Waiting (err panic) s h = h
  after_install-Waiting (err abort) s h = h

  install-Waiting :
      (signature : List ℕ) (stream : List Poll) (size : ℕ) (s : ServiceState H)
      → Waiting s
      → Waiting (install X inner source signature stream size s).1
  unfolding install install_update receive_btrfs_stream Progress.new Hashing.new
  install-Waiting signature stream size s h =
      let reader = Hashing.new X.crypto (Progress.new (X.clock 0) stream (some size) source) in
      let reports =
        copy-Reports X.crypto X.float source X.clock scripted (H.reads s.env.host) reader
          (refl, tt) in
      after_install-Waiting _ _ (All-append (IsReport source) s.spawned _ h reports.1)

  decided-Waiting :
      (signature : List ℕ) (stream : List Poll) (size : ℕ) (t : ServiceState H) (ds : List Bool)
      → Waiting t
      → Waiting (install_if X inner source signature stream size (decided source t ds)).1
  unfolding install_if decided
  decided-Waiting signature stream size t [] h = h
  decided-Waiting signature stream size t (false ∷ ds) h = h
  decided-Waiting signature stream size t (true ∷ ds) h =
      install-Waiting signature stream size (record t { pending_update = none; decisions = ds }) h

  process-Waiting :
      (auto : Bool) (c g : Option Text) (stream : List Poll) (size : ℕ) (s : ServiceState H)
      → Waiting s
      → Waiting (process_update_entry X inner source auto c g stream size s).1
  unfolding process_update_entry with_contents consent ask_consent install_if
  process-Waiting auto none g stream size s h = h
  process-Waiting auto (some c) none stream size s h = h
  process-Waiting true (some c) (some g) stream size s h = install-Waiting g stream size s h
  process-Waiting false (some c) (some g) stream size s h =
      decided-Waiting g stream size
        (await_confirmation source (extract_version_from_changelog X.is_alphanumeric c) c s)
        s.decisions h

  Ends-IsFinal :
      (s t : ServiceState H) (b : Bool) (o : Outcome H)
      → Ends source s o
      → o ≡ (ok b, t)
      → IsFinal source t.update_status
  Ends-IsFinal s t b _ (ends c u final) e =
      subst (IsFinal source) (ap (λ r. r.1.update_status) e) final
  Ends-IsFinal s t b _ _ e = let no : ⊥ = cc (ap (λ r. r.0) e) in elim no [ ]

  -- Nothing waits when an update entry starts. If it ends with `Ok` while a status update that its
  -- reader has spawned still waits, the status is `Completed` or `Failed`, and the next step of the
  -- scheduler sets it back to `Installing`.
  pub process_update_entry-late :
      (auto b : Bool) (c g : Option Text) (stream : List Poll) (size : ℕ) (s t : ServiceState H)
      (status : UpdateStatus) (rest : List UpdateStatus)
      → s.spawned ≡ []
      → process_update_entry X inner source auto c g stream size s ≡ (ok b, t)
      → t.spawned ≡ status ∷ rest
      → IsFinal source t.update_status × IsReport source (run_spawned t.spawned t).update_status
  unfolding run_spawned
  process_update_entry-late auto b c g stream size s t status rest none_yet ended waits =
      let before : Waiting s = rw none_yet tt in
      let after : Waiting t =
        subst (λ r. Waiting r.1) ended (process-Waiting auto c g stream size s before) in
      (
        Ends-IsFinal s t b _ (process_update_entry-Ends X inner source s auto c g stream size)
            ended,
        rw waits (subst (All (IsReport source)) waits after).0,
      )
