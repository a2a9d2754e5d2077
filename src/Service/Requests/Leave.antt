-- ===== src/Service/Requests/Leave.antt =====
-- src/service.rs, `update_request_loop`: what the service does without the consent of a client.
use embuer.Base.{
  ok, err, ℕ, List, [], ◌∷◌, ◌≡◌, ◌∙◌, ◌⊎◌, inl, inr, Bool, true, false, Option, none,
}
use embuer.Text.{Text}
use embuer.Host.{Host, Env, error, panic, abort}
use mathlib.Core.Path.{subst}
use embuer.Stream.{Poll}
use embuer.Service.State.{UpdateSource, ServiceInner, ServiceState}
use embuer.Service.Process.{External, Outcome, process_update_entry}
use embuer.Service.Process.Decisions.{Takes, keeps, takes, process_update_entry-Settled}
use embuer.Service.Requests.{Sources, update_request_loop}
use embuer.Service.Requests.Holds.{OutcomeHolds, FlowHolds, Any, Any-Archive}
use embuer.Service.Requests.Keeps.{update_request_loop-keeps}

-- Every decision in the list rejects.
unfoldable pub AllReject : List Bool → Type 0
AllReject [] = Unit
AllReject (true ∷ ds) = ⊥
AllReject (false ∷ ds) = AllReject ds

-- Nothing is pending, only rejections are left, and the host is as in `e`.
pub record Untouched {H : Host} (e : Env H) (s : ServiceState H) : Type 0 where
  pub nothing_pending : s.pending_update ≡ none
  pub rejected : AllReject s.decisions
  pub host : s.env ≡ e

rest-AllReject : (ds es : List Bool) → Takes false ds es → AllReject ds → AllReject es
unfolding AllReject
rest-AllReject ds es (keeps auto _) h = h
rest-AllReject _ es (takes false _) h = h
rest-AllReject _ es (takes true _) h = elim h [ ]

module _ (X : External) {H : Host} (inner : ServiceInner) (e : Env H) where
  process-Untouched :
      (source : Text) (changelog signature : Option Text) (stream : List Poll) (size : ℕ)
      (s : ServiceState H)
      → Untouched e s
      → Untouched e (process_update_entry X inner source false changelog signature stream size s).1
  unfolding AllReject
  process-Untouched source changelog signature stream size s h =
      let k =
        process_update_entry-Settled X inner source false changelog signature stream size s
          h.nothing_pending in
      record {
        nothing_pending = k.nothing_pending;
        rejected = rest-AllReject _ _ k.decisions h.rejected;
        host = host k.leave;
      }
    where
      host :
          {t : Env H}
          → (t ≡ s.env) ⊎ (false ≡ true) ⊎ ((ds : List Bool) × (s.decisions ≡ true ∷ ds))
          → t ≡ e
      host (inl same) = same ∙ h.host
      host (inr (inl auto)) = cc
      host (inr (inr (ds, accepted))) = elim (subst AllReject accepted h.rejected) [ ]

  both : (r : Outcome H) → Untouched e r.1 → OutcomeHolds (Untouched e) (Untouched e) r
  both (ok b, s) h = h
  both (err (error x), s) h = h
  both (err panic, s) h = h
  both (err abort, s) h = h

  -- Without `auto_install_updates`, a service whose clients have only rejected leaves the host as
  -- it is, whatever is requested and whatever the sources answer: nothing is run and nothing is
  -- received, and no update is left pending. It holds at the end of the loop and after a panic.
  pub update_request_loop-Untouched :
      (Q : Sources H) (requests : List UpdateSource) (s : ServiceState H)
      → s.pending_update ≡ none
      → AllReject s.decisions
      → s.env ≡ e
      → FlowHolds (Untouched e) (Untouched e) (update_request_loop X Q inner false requests s)
  update_request_loop-Untouched Q requests s pending rejected host =
      update_request_loop-keeps X inner false Any Any (Untouched e) (Untouched e)
        (λ status rest t h. record {
          nothing_pending = h.nothing_pending;
          rejected = h.rejected;
          host = h.host;
        })
        (λ source c g stream size t any also h.
          both _ (process-Untouched source c g stream size t h))
        Q (λ source at. Any-Archive _) requests s
        (record { nothing_pending = pending; rejected = rejected; host = host })
