-- ===== src/Service/Live/Stuck.antt =====
-- src/service.rs and src/progress_stream.rs: a status update that runs late, while the next update
-- awaits its decision.
use embuer.Base.{Bool, true, false, some, List, [], ◌∷◌, ◌++◌, ◌≡◌, refl, sym, ◌∙◌, err, All}
use embuer.Text.{Text}
use embuer.Error.{ServiceError}
use embuer.Host.{Host, Env}
use embuer.Status.{UpdateStatus, Progress, installing}
use embuer.Service.State.{PendingUpdate}
use embuer.Service.Confirm.{is_awaiting, refuse, may_confirm, sent, confirm_update}
use embuer.Service.Live.{awaiting, Live, Step, Steps, at_once, then, started, view}
use embuer.Service.Live.Step.{
  requested, none_available, unreadable, archive_ends, unasked, shown, asked, taken, goes_on,
  turns_back, rejected, installs, reports, install_fails, clears, completes, status_checked,
  pending_checked, not_pending, sends, runs,
}

-- A status that lets no decision in.
abbrev Closed : UpdateStatus → Type 0
Closed status = is_awaiting status ≡ false

-- The loop awaits a decision for this update, none is under way, and none is let in.
record Stuck (update : PendingUpdate) (t : Live) : Type 0 where
  place : t.place ≡ awaiting update
  channel : t.channel ≡ []
  checked : t.checked ≡ []
  senders : t.senders ≡ []
  status : Closed t.update_status
  spawned : All Closed t.spawned

All-middle :
    (before after : List UpdateStatus) (status : UpdateStatus)
    → All Closed (before ++ status ∷ after)
    → Closed status × All Closed (before ++ after)
All-middle [] after status (h, hs) = (h, hs)
All-middle (x ∷ before) after status (h, hs) =
    let (one, rest) = All-middle before after status hs in (one, (h, rest))

-- The status update that runs is one of those that were spawned.
ran :
    (update : PendingUpdate) (t : Live) (before after : List UpdateStatus) (status : UpdateStatus)
    → t.spawned ≡ before ++ status ∷ after
    → Stuck update t
    → Stuck update (record t { update_status = status; spawned = before ++ after })
ran update t before after status p s =
    let (closed, rest) = All-middle before after status (rw p at s.spawned) in
    record {
      place = s.place;
      channel = s.channel;
      checked = s.checked;
      senders = s.senders;
      status = closed;
      spawned = rest;
    }

nowhere : (before after : List Bool) (b : Bool) → [] ≡ before ++ b ∷ after → ⊥
nowhere [] after b e = cc
nowhere (x ∷ before) after b e = cc

Step-Stuck :
    {auto : Bool} (update : PendingUpdate) (t u : Live)
    → Step auto t u
    → Stuck update t
    → Stuck update u
Step-Stuck w t _ (requested source p) s = absurd cc
Step-Stuck w t _ (none_available source p) s = absurd cc
Step-Stuck w t _ (unreadable source error p) s = absurd cc
Step-Stuck w t _ (archive_ends source p) s = absurd cc
Step-Stuck w t _ (unasked source a p) s = absurd cc
Step-Stuck w t _ (shown update a p) s = absurd cc
Step-Stuck w t _ (asked update p) s = absurd cc
Step-Stuck w t _ (taken update decision rest p q) s = absurd cc
Step-Stuck w t _ (goes_on update p) s = absurd cc
Step-Stuck w t _ (turns_back update p) s = absurd cc
Step-Stuck w t _ (rejected source p) s = absurd cc
Step-Stuck w t _ (installs source p) s = absurd cc
Step-Stuck w t _ (reports source progress p) s = absurd cc
Step-Stuck w t _ (install_fails source error p) s = absurd cc
Step-Stuck w t _ (clears source deployment p) s = absurd cc
Step-Stuck w t _ (completes source deployment p) s = absurd cc
Step-Stuck w t _ (status_checked decision p) s = absurd cc
Step-Stuck w t _ (pending_checked before after decision update p q) s =
    absurd (nowhere before after decision (sym s.checked ∙ p))
Step-Stuck w t _ (not_pending before after decision p q) s =
    absurd (nowhere before after decision (sym s.checked ∙ p))
Step-Stuck w t _ (sends decision rest p q) s = absurd cc
Step-Stuck w t _ (runs before after status p) s = ran w t before after status p s

Steps-Stuck :
    {auto : Bool} (update : PendingUpdate) (t u : Live)
    → Stuck update t
    → Steps auto t u
    → Stuck update u
Steps-Stuck w t _ s at_once = s
Steps-Stuck w t _ s (then u v r st) = Step-Stuck w u v st (Steps-Stuck w t u s r)

-- A decision for such an update is refused.
refused :
    {H : Host} (e : Env H) (update : PendingUpdate) (t : Live) (decision : Bool)
    → Stuck update t
    → (x : ServiceError) × (confirm_update decision (view e t) ≡ (err x, view e t))
unfolding confirm_update may_confirm sent refuse
refused e w t decision s = rw s.status (_, refl)

infixl 5 ◌▷◌
abbrev ◌▷◌ : {auto : Bool} {s t u : Live} → Steps auto s t → Step auto t u → Steps auto s u
r ▷ st = then _ _ r st

-- One update has been installed, and the next one awaits its decision, with a status update of the
-- first one still to run.
module _ (first second : PendingUpdate) (progress : Progress) (deployment : Text) where
  abbrev pub late_state : Live
  late_state = record started {
    place = awaiting second;
    update_status = installing first.source progress;
    pending_update = some second;
  }

  pub reached : Steps false started late_state
  unfolding is_awaiting
  reached =
      at_once
      ▷ requested first.source refl
      ▷ shown first refl refl
      ▷ asked first refl
      ▷ status_checked true refl
      ▷ pending_checked [] [] true first refl refl
      ▷ sends true [] refl refl
      ▷ taken first true [] refl refl
      ▷ goes_on first refl
      ▷ installs first.source refl
      ▷ reports first.source progress refl
      ▷ clears first.source deployment refl
      ▷ completes first.source deployment refl
      ▷ archive_ends first.source refl
      ▷ requested second.source refl
      ▷ shown second refl refl
      ▷ asked second refl
      ▷ runs [] [] (installing first.source progress) refl

  late_state-Stuck : Stuck second late_state
  unfolding is_awaiting
  late_state-Stuck = record {
    place = refl;
    channel = refl;
    checked = refl;
    senders = refl;
    status = refl;
    spawned = tt;
  }

-- For any two updates, the service can come to a state `late_state` in which the first one has been
-- accepted and installed, the second one awaits its decision, and a status update that the reader
-- of the first one had spawned has run only then. Whatever the tasks do from there on, to a state
-- `u`, the loop still awaits that decision, and `confirm_update` refuses every decision with an
-- error.
pub late_report-awaits :
    (first second : PendingUpdate) (progress : Progress) (deployment : Text) (H : Host) (e : Env H)
    (decision : Bool) (u : Live)
    → Steps false (late_state first second progress deployment) u
    → Steps false started (late_state first second progress deployment)
      × (u.place ≡ awaiting second)
      × ((x : ServiceError) × (confirm_update decision (view e u) ≡ (err x, view e u)))
late_report-awaits first second progress deployment H e decision u r =
    let s = Steps-Stuck second _ u (late_state-Stuck first second progress deployment) r in
    (reached first second progress deployment, s.place, refused e second u decision s)
