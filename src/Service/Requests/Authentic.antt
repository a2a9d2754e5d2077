-- ===== src/Service/Requests/Authentic.antt =====
-- src/service.rs with src/core.rs: what the service does with updates that nobody has signed.
use embuer.Base.{
  ℕ, List, [], ◌∷◌, ◌++◌, ◌≡◌, inl, inr, Bool, true, false, Option, none, some, Result, ok, err,
}
use embuer.Text.{Text}
use embuer.Host.{Host, Env, Failure, error, panic, abort}
use embuer.Host.Trace.{Adds, Adds-refl, Adds-trans}
use embuer.Crypto.{HashesByParts}
use embuer.Stream.{Poll, scripted}
use embuer.Stream.Hashing
use embuer.Stream.Progress
use embuer.Stream.Draws.{data_of, scripted-Holds, hashing-Holds, progress-Holds, copy-Begins}
use embuer.Install.Laws.{Prepares}
use embuer.Install.Authentic.{IsRefused, Verifies, install_update-authentic}
use embuer.Service.State.{UpdateSource, ServiceInner, ServiceState}
use embuer.Service.Version.{extract_version_from_changelog}
use embuer.Service.Process.{
  External, decided, await_confirmation, ask_consent, consent, after_install, install, install_if,
  with_contents, process_update_entry,
}
use embuer.Service.Requests.{Sources, contents, update_request_loop}
use embuer.Service.Requests.Holds.{OutcomeHolds, FlowHolds, SignatureHolds, ArchiveHolds}
use embuer.Service.Requests.Keeps.{update_request_loop-keeps}

-- None of the signatures `G` verifies for the hash of the stream, or of any beginning of it.
abbrev pub Unsigned :
    External → ServiceInner → (List ℕ → List ℕ) → (List ℕ → Type 0) → List Poll → Type 0
Unsigned X inner sha512 G stream =
    (signature bytes more : List ℕ)
    → G signature
    → data_of stream ≡ bytes ++ more
    → ¬ Verifies X.crypto inner.pubkey signature (X.crypto.encode (sha512 bytes))

-- Since `e`, only commands of `Prepares` were run.
abbrev pub Harmless : {H : Host} → ServiceInner → Env H → ServiceState H → Type 0
Harmless inner e s = Adds (Prepares inner.deployments_dir) e.trace s.env.trace

module _ (X : External) {H : Host} (inner : ServiceInner) (sha512 : List ℕ → List ℕ)
    (L : HashesByParts X.crypto sha512) (G : List ℕ → Type 0) (e : Env H) where
  module _ (source : Text) where
    after_install-Harmless :
        (r : Result Failure (Option Text)) (s : ServiceState H)
        → IsRefused r
        → Harmless inner e s
        → OutcomeHolds (Harmless inner e) (Harmless inner e) (after_install X inner source r s)
    unfolding after_install
    after_install-Harmless (ok name) s refused h = elim refused [ ]
    after_install-Harmless (err (error x)) s refused h = h
    after_install-Harmless (err panic) s refused h = h
    after_install-Harmless (err abort) s refused h = h

    module _ (signature : List ℕ) (stream : List Poll) (size : ℕ) (served : G signature)
        (unsigned : Unsigned X inner sha512 G stream) where
      install-Harmless :
          (s : ServiceState H)
          → Harmless inner e s
          → OutcomeHolds
              (Harmless inner e)
              (Harmless inner e)
              (install X inner source signature stream size s)
      unfolding install Progress.new Hashing.new
      install-Harmless s h =
          let C = X.crypto in
          let reader = Progress.new (X.clock 0) stream (some size) source in
          let poll_read = Progress.poll_read X.float X.clock scripted in
          let (more, begins) =
            copy-Begins (Hashing.poll_read C poll_read) (λ r. data_of r.inner.inner)
              (hashing-Holds poll_read (λ r. data_of r.inner)
                (progress-Holds scripted data_of scripted-Holds X.float X.clock) C)
              (H.reads s.env.host) (Hashing.new C reader) in
          elim (install_update-authentic C inner.pubkey signature X.manifest H inner.rootfs_dir
            inner.deployments_dir inner.boot_name sha512 L poll_read reader s.env) [
              | inl (refused, k) ↦ after_install-Harmless _ _ refused (Adds-trans e.trace h k)
              | inr v ↦ elim (unsigned signature _ more served begins v) [ ]
            ]

      decided-Harmless :
          (t : ServiceState H) (ds : List Bool)
          → Harmless inner e t
          → OutcomeHolds
              (Harmless inner e)
              (Harmless inner e)
              (install_if X inner source signature stream size (decided source t ds))
      unfolding install_if decided
      decided-Harmless t [] h = h
      decided-Harmless t (false ∷ ds) h = h
      decided-Harmless t (true ∷ ds) h = install-Harmless _ h

      with_contents-Harmless :
          (auto : Bool) (changelog : Text) (s : ServiceState H)
          → Harmless inner e s
          → OutcomeHolds
              (Harmless inner e)
              (Harmless inner e)
              (with_contents X inner source auto stream size changelog signature s)
      unfolding with_contents consent ask_consent install_if
      with_contents-Harmless true changelog s h = install-Harmless s h
      with_contents-Harmless false changelog s h =
          decided-Harmless
            (await_confirmation source (extract_version_from_changelog X.is_alphanumeric changelog)
              changelog s)
            s.decisions h

    process_update_entry-Harmless :
        (auto : Bool) (changelog signature : Option Text) (stream : List Poll) (size : ℕ)
        (s : ServiceState H)
        → SignatureHolds G signature
        → Unsigned X inner sha512 G stream
        → Harmless inner e s
        → OutcomeHolds
            (Harmless inner e)
            (Harmless inner e)
            (process_update_entry X inner source auto changelog signature stream size s)
    unfolding process_update_entry
    process_update_entry-Harmless auto none signature stream size s g unsigned h = h
    process_update_entry-Harmless auto (some c) none stream size s g unsigned h = h
    process_update_entry-Harmless auto (some c) (some signature) stream size s g unsigned h =
        with_contents-Harmless signature stream size g unsigned auto c s h

  -- When the contents of the entries that the sources ever serve are among `G`, and
  -- none of `G` verifies for the hash of a stream that they serve, or of a beginning of one, then
  -- whatever is requested and decided, and with `auto_install_updates` too, the loop runs no command
  -- but those of `Prepares`: no script of an update or of a deployment, and no change of the default
  -- subvolume. The hash is assumed to be computed by parts. This holds at the end of the loop and
  -- after a panic.
  pub update_request_loop-Harmless :
      (auto : Bool) (Q : Sources H)
      → ((source : UpdateSource) (at : H.State)
          → ArchiveHolds G (Unsigned X inner sha512 G) (contents X Q inner auto source at))
      → (requests : List UpdateSource) (s : ServiceState H) → s.env ≡ e
      → FlowHolds
          (Harmless inner e)
          (Harmless inner e)
          (update_request_loop X Q inner auto requests s)
  update_request_loop-Harmless auto Q served requests s start =
      update_request_loop-keeps X inner auto G (Unsigned X inner sha512 G) (Harmless inner e)
        (Harmless inner e) (λ status rest t h. h)
        (λ source c g stream size t k unsigned h.
          process_update_entry-Harmless source auto c g stream size t k unsigned h)
        Q served requests s (rw start (Adds-refl e.trace))
