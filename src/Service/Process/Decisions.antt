-- ===== src/Service/Process/Decisions.antt =====
-- src/service.rs, `process_update_entry`: what a decision permits, and what is left of it.
use embuer.Base.{
  ℕ, List, [], ◌∷◌, ◌≡◌, refl, ◌∙◌, ◌⊎◌, inl, inr, Bool, true, false, Option, none, some, Result,
  ok, err,
}
use embuer.Text.{Text}
use embuer.Host.{Host, Env, Failure, error, panic, abort}
use embuer.Stream.{Poll}
use embuer.Service.State.{ServiceInner, ServiceState, set_status}
use embuer.Status.{clearing}
use embuer.Service.Version.{extract_version_from_changelog}
use embuer.Service.Clear.{clear_old_deployments}
use embuer.Service.Process.{
  External, decided, await_confirmation, ask_consent, consent, after_clearing, after_install,
  install, install_if, with_contents, process_update_entry,
}

-- What an update may do to the decisions: with `auto_install_updates` none is taken, and without
-- it one at most.
pub data Takes : Bool → List Bool → List Bool → Type 0 where
  keeps : (auto : Bool) (ds : List Bool) → Takes auto ds ds
  takes : (d : Bool) (ds : List Bool) → Takes false (d ∷ ds) ds

-- The pending update is gone, the decisions are those, and the host was used only with leave.
pub record Settled {H : Host} (auto : Bool) (s t : ServiceState H) : Type 0 where
  pub nothing_pending : t.pending_update ≡ none
  pub decisions : Takes auto s.decisions t.decisions
  pub leave : (t.env ≡ s.env) ⊎ (auto ≡ true) ⊎ ((ds : List Bool) × (s.decisions ≡ true ∷ ds))

-- The pending update and the decisions are as they were.
record Same {H : Host} (s t : ServiceState H) : Type 0 where
  pending : t.pending_update ≡ s.pending_update
  decisions : t.decisions ≡ s.decisions

module _ (X : External) {H : Host} (inner : ServiceInner) (source : Text) where
  after_clearing-Same :
      (deployment : Text) (s : ServiceState H) (r : Result Failure ℕ × Env H)
      → Same s (after_clearing X inner source deployment s r).1
  unfolding after_clearing
  after_clearing-Same deployment s (err panic, e) = record { pending = refl; decisions = refl }
  after_clearing-Same deployment s (err abort, e) = record { pending = refl; decisions = refl }
  after_clearing-Same deployment s (err (error x), e) = record { pending = refl; decisions = refl }
  after_clearing-Same deployment s (ok n, e) = record { pending = refl; decisions = refl }

  after_install-Same :
      (r : Result Failure (Option Text)) (s : ServiceState H)
      → Same s (after_install X inner source r s).1
  unfolding after_install
  after_install-Same (ok (some deployment)) s =
      let h =
        after_clearing-Same deployment (set_status clearing s)
          (clear_old_deployments X.manifest H inner s.env) in
      record { pending = h.pending; decisions = h.decisions }
  after_install-Same (ok none) s = record { pending = refl; decisions = refl }
  after_install-Same (err (error x)) s = record { pending = refl; decisions = refl }
  after_install-Same (err panic) s = record { pending = refl; decisions = refl }
  after_install-Same (err abort) s = record { pending = refl; decisions = refl }

  install-Same :
      (signature : List ℕ) (stream : List Poll) (size : ℕ) (s : ServiceState H)
      → Same s (install X inner source signature stream size s).1
  unfolding install
  install-Same signature stream size s =
      let h = after_install-Same _ _ in record { pending = h.pending; decisions = h.decisions }

  -- From the state that awaits a decision, which is `s` but for its status and pending update.
  decided-Settled :
      (signature : List ℕ) (stream : List Poll) (size : ℕ) (s t : ServiceState H) (ds : List Bool)
      → s.decisions ≡ ds
      → t.decisions ≡ s.decisions
      → t.env ≡ s.env
      → Settled false s (install_if X inner source signature stream size (decided source t ds)).1
  unfolding install_if decided
  decided-Settled signature stream size s t [] e d v = record {
    nothing_pending = refl;
    decisions = rw d (keeps false s.decisions);
    leave = inl v;
  }
  decided-Settled signature stream size s t (false ∷ ds) e d v = record {
    nothing_pending = refl;
    decisions = rw e (takes false ds);
    leave = inl v;
  }
  decided-Settled signature stream size s t (true ∷ ds) e d v =
      let h =
        install-Same signature stream size (record t { pending_update = none; decisions = ds }) in
      record {
        nothing_pending = h.pending;
        decisions = rw (e, h.decisions) (takes true ds);
        leave = inr (inr (ds, e));
      }

  -- An update that awaits a decision takes the first one, and leaves the others.
  pub decided-rest :
      (signature : List ℕ) (stream : List Poll) (size : ℕ) (t : ServiceState H) (d : Bool)
      (ds : List Bool)
      → (install_if X inner source signature stream size (decided source t (d ∷ ds))).1.decisions
        ≡ ds
  unfolding install_if decided
  decided-rest signature stream size t false ds = refl
  decided-rest signature stream size t true ds =
      (install-Same signature stream size
        (record t { pending_update = none; decisions = ds })).decisions

  with_contents-Settled :
      (auto : Bool) (stream : List Poll) (size : ℕ) (changelog : Text) (signature : List ℕ)
      (s : ServiceState H)
      → s.pending_update ≡ none
      → Settled auto s (with_contents X inner source auto stream size changelog signature s).1
  unfolding with_contents consent ask_consent install_if
  with_contents-Settled true stream size changelog signature s h =
      let k = install-Same signature stream size s in
      record {
        nothing_pending = k.pending ∙ h;
        decisions = rw k.decisions (keeps true s.decisions);
        leave = inr (inl refl);
      }
  with_contents-Settled false stream size changelog signature s h =
      decided-Settled signature stream size s
        (await_confirmation source (extract_version_from_changelog X.is_alphanumeric changelog)
          changelog s)
        s.decisions refl refl refl

  -- From a state with nothing pending, an update entry ends, on every path and after a panic too,
  -- with nothing pending. It takes no decision when updates are installed automatically, and one at
  -- most otherwise. The host is as it was, unless updates are installed automatically or the first
  -- decision accepts.
  pub process_update_entry-Settled :
      (auto : Bool) (changelog signature : Option (List ℕ)) (stream : List Poll) (size : ℕ)
      (s : ServiceState H)
      → s.pending_update ≡ none
      → Settled auto s
          (process_update_entry X inner source auto changelog signature stream size s).1
  unfolding process_update_entry
  process_update_entry-Settled auto none signature stream size s h = record {
    nothing_pending = h;
    decisions = keeps auto s.decisions;
    leave = inl refl;
  }
  process_update_entry-Settled auto (some c) none stream size s h = record {
    nothing_pending = h;
    decisions = keeps auto s.decisions;
    leave = inl refl;
  }
  process_update_entry-Settled auto (some c) (some sig) stream size s h =
      with_contents-Settled auto stream size c sig s h
