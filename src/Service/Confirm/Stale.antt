-- ===== src/Service/Confirm/Stale.antt =====
-- src/service.rs, `confirm_update` with `process_update_entry`: which decisions are accepted, and
-- which update takes them.
use embuer.Base.{
  ℕ, List, [], ◌∷◌, ◌++◌, ◌≡◌, refl, ap, sym, ◌∙◌, Bool, true, false, Option, none, some, Result,
  ok, err,
}
use embuer.Text.{Text}
use embuer.Error.{ServiceError}
use embuer.Host.{Host}
use embuer.Status.{
  UpdateStatus, awaiting_confirmation, failed, idle, checking, clearing, completed, installing,
}
use embuer.Stream.{Poll}
use embuer.Service.State.{PendingUpdate, ServiceInner, ServiceState, set_status}
use embuer.Service.Process.Decisions.{decided-rest}
use embuer.Service.Confirm.{is_awaiting, refuse, may_confirm, sent, confirm_update}
use embuer.Service.Process.{
  External, install_if, Consent, proceed, decided, await_confirmation, ask_consent, consent,
}

-- The conditions under which a decision is accepted.
pub record Awaits {H : Host} (s : ServiceState H) : Type 0 where
  pub version : Text
  pub source : Text
  pub update : PendingUpdate
  pub status : s.update_status ≡ awaiting_confirmation version source
  pub pending : s.pending_update ≡ some update

-- The update that awaits the decision takes the first one.
abbrev pub ends_with : {H : Host} → Text → ServiceState H → Consent H
ends_with desc s = decided desc s s.decisions

-- The answer to a decision.
pub data Answered {H : Host} (accepted : Bool) (s : ServiceState H)
    : Result ServiceError (Unit {0}) × ServiceState H → Type 0 where
  queued :
      Awaits s → Answered accepted s (ok tt, record s { decisions = s.decisions ++ accepted ∷ [] })
  refused : (e : ServiceError) → ¬ Awaits s → Answered accepted s (err e, s)

module _ {H : Host} where
  confirm_update-Awaits :
      (accepted : Bool) (s : ServiceState H)
      → Awaits s
      → confirm_update accepted s ≡ (ok tt, record s { decisions = s.decisions ++ accepted ∷ [] })
  unfolding confirm_update sent may_confirm is_awaiting
  confirm_update-Awaits accepted s h = rw (h.status, h.pending) refl

  no_wait :
      (accepted : Bool) (s : ServiceState H) (status : UpdateStatus)
      → is_awaiting status ≡ false
      → s.update_status ≡ status
      → ¬ Awaits s
  unfolding is_awaiting
  no_wait accepted s status other e h = absurd other (sym e ∙ h.status)
    where
      absurd : {v d : Text} → is_awaiting status ≡ false → status ≡ awaiting_confirmation v d → ⊥
      absurd n q = cc

  answered :
      (accepted : Bool) (s : ServiceState H) (status : UpdateStatus)
      (pending : Option PendingUpdate)
      → s.update_status ≡ status
      → s.pending_update ≡ pending
      → Answered accepted s (sent accepted s (may_confirm (is_awaiting status) pending))
  unfolding sent may_confirm is_awaiting refuse
  answered accepted s (awaiting_confirmation v d) (some p) e f =
      queued (record { version = v; source = d; update = p; status = e; pending = f })
  answered accepted s (awaiting_confirmation v d) none e f = refused _ (λ h. cc)
  answered accepted s idle pending e f = refused _ (no_wait accepted s idle refl e)
  answered accepted s checking pending e f = refused _ (no_wait accepted s checking refl e)
  answered accepted s clearing pending e f = refused _ (no_wait accepted s clearing refl e)
  answered accepted s (installing x p) pending e f =
      refused _ (no_wait accepted s (installing x p) refl e)
  answered accepted s (completed x y) pending e f =
      refused _ (no_wait accepted s (completed x y) refl e)
  answered accepted s (failed x y) pending e f = refused _ (no_wait accepted s (failed x y) refl e)

  -- A decision is queued, behind those that already wait, when the service awaits a confirmation
  -- and has a pending update. In every other state it is refused with an error, and the state is as
  -- it was.
  pub confirm_update-Answered :
      (accepted : Bool) (s : ServiceState H) → Answered accepted s (confirm_update accepted s)
  unfolding confirm_update
  confirm_update-Answered accepted s =
      answered accepted s s.update_status s.pending_update refl refl

  both_queued :
      (first second : Bool) (s : ServiceState H)
      → Awaits s
      → s.decisions ≡ []
      → confirm_update second (confirm_update first s).1
        ≡ (ok tt, record s { decisions = first ∷ second ∷ [] })
  both_queued first second s h none_yet =
      let still : Awaits (record s { decisions = s.decisions ++ first ∷ [] }) = record {
        version = h.version;
        source = h.source;
        update = h.update;
        status = h.status;
        pending = h.pending;
      } in
      rw (confirm_update-Awaits first s h, confirm_update-Awaits second _ still, none_yet) refl

  -- While one update awaits its confirmation, two decisions are both accepted. The update takes the
  -- first of them, and wherever it ends, installed, failed or rejected, the second one is kept: the
  -- next update that asks, whatever status was shown in between, takes it at once. When it accepts,
  -- the next update goes on without a decision of its own.
  pub confirm_update-stale :
      (X : External) (inner : ServiceInner) (first : Bool) (desc : Text) (signature : List ℕ)
      (stream : List Poll) (size : ℕ) (s : ServiceState H)
      → Awaits s
      → s.decisions ≡ []
      → (status : UpdateStatus) (next version changelog : Text)
      → let two = confirm_update true (confirm_update first s).1 in
        let ended = install_if X inner desc signature stream size (ends_with desc two.1) in
        let w = set_status status ended.1 in
        (two.0 ≡ ok tt)
        × (consent next false version changelog w
            ≡ proceed (record (await_confirmation next version changelog w) {
              pending_update = none;
              decisions = [];
            }))
  unfolding consent ask_consent decided
  confirm_update-stale X inner first desc signature stream size s h none_yet status next version
        changelog =
      let two = both_queued first true s h none_yet in
      (
        rw two refl,
        rw
            (ap
                (λ t.
                  (install_if X inner desc signature stream size (ends_with desc t.1)).1.decisions)
                two
              ∙ last first)
            refl,
      )
    where
      last :
          (b : Bool)
          → (install_if X inner desc signature stream size
              (ends_with desc (record s { decisions = b ∷ true ∷ [] }))).1.decisions
            ≡ true ∷ []
      last b =
          decided-rest X inner desc signature stream size (record s { decisions = b ∷ true ∷ [] }) b
            (true ∷ [])
