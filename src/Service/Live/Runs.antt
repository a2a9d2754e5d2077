-- ===== src/Service/Live/Runs.antt =====
-- src/service.rs and src/progress_stream.rs: a call of `confirm_update`, and the status updates of a
-- reader, as steps.
use mathlib.Core.Path.{subst}
use embuer.Base.{
  Bool, List, [], ◌∷◌, ◌++◌, append_assoc, append-nil, ◌≡◌, refl, sym, ap, ◌∙◌, Result, All,
}
use embuer.Text.{Text}
use embuer.Error.{ServiceError}
use embuer.Host.{Host, Env}
use embuer.Status.{UpdateStatus, installing}
use embuer.Stream.Progress.Reports.{IsReport, progress_of}
use embuer.Service.State.{ServiceState}
use embuer.Service.Confirm.{is_awaiting, confirm_update}
use embuer.Service.Confirm.Stale.{Awaits, Answered, queued, refused, confirm_update-Answered}
use embuer.Service.Live.{in_install, Live, Step, Steps, at_once, then, view}
use embuer.Service.Live.Step.{reports, status_checked, pending_checked}

module _ {auto : Bool} where
  pub once : {t u : Live} → Step auto t u → Steps auto t u
  once st = then _ _ at_once st

  pub Steps-trans : {t u : Live} (v : Live) → Steps auto t u → Steps auto u v → Steps auto t v
  Steps-trans _ r at_once = r
  Steps-trans _ r (then u v q st) = then u v (Steps-trans u r q) st

  -- The steps of one call of `confirm_update` that nothing interrupts.
  call-Steps :
      {H : Host} (decision : Bool) (e : Env H) (t : Live)
      → Awaits (view e t)
      → Steps auto t (record t { checked = t.checked ++ []; senders = t.senders ++ decision ∷ [] })
  unfolding is_awaiting
  call-Steps decision e t h =
      then _ _ (then _ _ at_once (status_checked decision (rw h.status refl)))
        (pending_checked t.checked [] decision h.update refl h.pending)

  answered-Steps :
      {H : Host} (decision : Bool) (e : Env H) (t : Live)
      (r : Result ServiceError (Unit {0}) × ServiceState H)
      → Answered decision (view e t) r
      → (u : Live) × Steps auto t u × (view e u ≡ r.1)
  answered-Steps decision e t _ (queued h) = (
    record t { checked = t.checked ++ []; senders = t.senders ++ decision ∷ [] },
    call-Steps decision e t h,
    ap (λ ds. record (view e t) { decisions = ds })
        (sym (append_assoc t.channel t.senders (decision ∷ []))),
  )
  answered-Steps decision e t _ (refused x n) = (t, at_once, refl)

  -- From every state, a call of `confirm_update` that nothing interrupts is a run of steps, and ends
  -- in the state that `confirm_update` gives.
  pub confirm_update-Runs :
      {H : Host} (decision : Bool) (e : Env H) (t : Live)
      → (u : Live) × Steps auto t u × (view e u ≡ (confirm_update decision (view e t)).1)
  confirm_update-Runs decision e t =
      answered-Steps decision e t _ (confirm_update-Answered decision (view e t))

  -- The status updates that a reader spawns.
  pub reports-Steps :
      (source : Text) (t : Live) (xs ys : List UpdateStatus)
      → t.place ≡ in_install source
      → All (IsReport source) xs
      → t.spawned ++ xs ≡ ys
      → Steps auto t (record t { spawned = ys })
  reports-Steps source t [] ys p h e =
      subst (λ zs. Steps auto t (record t { spawned = zs })) (sym (append-nil t.spawned) ∙ e)
        at_once
  reports-Steps source t (_ ∷ xs) ys p (progress_of q, h) e =
      Steps-trans _ (then _ _ at_once (reports source q p)) (
        reports-Steps source (record t { spawned = t.spawned ++ installing source q ∷ [] }) xs ys p
          h (append_assoc t.spawned (installing source q ∷ []) xs ∙ e))
