-- ===== src/Service/Live/Ledger.antt =====
-- src/service.rs: what holds however the tasks of the service interleave.
use embuer.Base.{
  ℕ, ◌+◌, ◌≤◌, Bool, true, false, Option, none, some, List, [], ◌∷◌, ◌++◌, ◌≡◌, refl, length, arith,
}
use embuer.Service.State.{PendingUpdate}
use embuer.Service.Live.{
  Place, showing, awaiting, received, accepted, Live, Step, Steps, at_once, then, started,
}
use embuer.Service.Live.Step.{
  requested, none_available, unreadable, archive_ends, unasked, shown, asked, taken, goes_on,
  turns_back, rejected, installs, reports, install_fails, clears, completes, status_checked,
  pending_checked, not_pending, sends, runs,
}

-- The pending update, by where the loop is.
abbrev pub shown_at : Place → Option PendingUpdate
shown_at (showing u) = some u
shown_at (awaiting u) = some u
shown_at (received u b) = some u
shown_at _ = none

abbrev pub one_if : Bool → ℕ
one_if true = 1
one_if false = 0

-- The decisions to accept.
abbrev pub accepting : List Bool → ℕ
accepting [] = 0
accepting (b ∷ bs) = one_if b + accepting bs

abbrev pub accepted_at : Place → ℕ
accepted_at (received u b) = one_if b
accepted_at (accepted source) = 1
accepted_at _ = 0

accepting-append : (xs ys : List Bool) → accepting (xs ++ ys) ≡ accepting xs + accepting ys
accepting-append [] ys = omega arith
accepting-append (x ∷ xs) ys = omega (arith, accepting-append xs ys)

-- The decisions to accept that are on their way to an installation.
abbrev pub on_the_way : Live → ℕ
on_the_way t = accepting t.senders + accepting t.channel + accepted_at t.place

module _ {auto : Bool} where
  -- In one step: the calls of `confirm_update` that accept and have passed both checks, and the
  -- installations that begin.
  abbrev pub confirms : {t u : Live} → Step auto t u → ℕ
  confirms (pending_checked before after decision update p q) = one_if decision
  confirms _ = 0

  abbrev pub begins : {t u : Live} → Step auto t u → ℕ
  begins (installs source p) = 1
  begins _ = 0

  -- And in all steps.
  abbrev pub confirmed : {t u : Live} → Steps auto t u → ℕ
  confirmed at_once = 0
  confirmed (then u v r st) = confirmed r + confirms st

  abbrev pub begun : {t u : Live} → Steps auto t u → ℕ
  begun at_once = 0
  begun (then u v r st) = begun r + begins st

-- The pending update is the one at which the loop is, and the channel keeps to its room.
pub record Ordered (t : Live) : Type 0 where
  pub pending : t.pending_update ≡ shown_at t.place
  pub room : length t.channel ≤ 1

Step-Ordered : {auto : Bool} (t u : Live) → Step auto t u → Ordered t → Ordered u
Step-Ordered t _ (requested source p) o = ground arith
Step-Ordered t _ (none_available source p) o = ground arith
Step-Ordered t _ (unreadable source error p) o = ground arith
Step-Ordered t _ (archive_ends source p) o = ground arith
Step-Ordered t _ (unasked source a p) o = ground arith
Step-Ordered t _ (shown update a p) o = ground arith
Step-Ordered t _ (asked update p) o = ground arith
Step-Ordered t _ (taken update decision rest p q) o = ground arith
Step-Ordered t _ (goes_on update p) o = ground arith
Step-Ordered t _ (turns_back update p) o = ground arith
Step-Ordered t _ (rejected source p) o = ground arith
Step-Ordered t _ (installs source p) o = ground arith
Step-Ordered t _ (reports source progress p) o = ground arith
Step-Ordered t _ (install_fails source error p) o = ground arith
Step-Ordered t _ (clears source deployment p) o = ground arith
Step-Ordered t _ (completes source deployment p) o = ground arith
Step-Ordered t _ (status_checked decision p) o = ground arith
Step-Ordered t _ (pending_checked before after decision update p q) o = ground arith
Step-Ordered t _ (not_pending before after decision p q) o = ground arith
Step-Ordered t _ (sends decision rest p q) o = ground arith
Step-Ordered t _ (runs before after status p) o = ground arith

-- A step keeps the account of the decisions to accept.
balanced :
    (t u : Live) (st : Step false t u) → on_the_way t + confirms st ≡ on_the_way u + begins st
balanced t _ (requested source p) = ground arith
balanced t _ (none_available source p) = ground arith
balanced t _ (unreadable source error p) = ground arith
balanced t _ (archive_ends source p) = ground arith
balanced t _ (unasked source a p) = ground arith
balanced t _ (shown update a p) = ground arith
balanced t _ (asked update p) = ground arith
balanced t _ (taken update decision rest p q) = ground arith
balanced t _ (goes_on update p) = ground arith
balanced t _ (turns_back update p) = ground arith
balanced t _ (rejected source p) = ground arith
balanced t _ (installs source p) = ground arith
balanced t _ (reports source progress p) = ground arith
balanced t _ (install_fails source error p) = ground arith
balanced t _ (clears source deployment p) = ground arith
balanced t _ (completes source deployment p) = ground arith
balanced t _ (status_checked decision p) = ground arith
balanced t _ (pending_checked before after decision update p q) =
    ground (arith, accepting-append t.senders (decision ∷ []))
balanced t _ (not_pending before after decision p q) = ground arith
balanced t _ (sends decision rest p q) = ground arith
balanced t _ (runs before after status p) = ground arith

Steps-Ordered : {auto : Bool} (u : Live) → Steps auto started u → Ordered u
Steps-Ordered _ at_once = record { pending = refl; room = omega arith }
Steps-Ordered _ (then u v r st) = Step-Ordered u v st (Steps-Ordered u r)

accounted : (u : Live) (r : Steps false started u) → confirmed r ≡ begun r + on_the_way u
accounted _ at_once = refl
accounted _ (then u v r st) = omega (arith, accounted u r, balanced u v st)

-- However the tasks of a service without automatic installation interleave: the pending update is
-- set exactly while the loop shows an update, awaits its decision or has just received it; the
-- channel holds one decision at most; and the calls of `confirm_update` that accept and have passed
-- both checks are as many as the installations that have begun and the decisions to accept that
-- are still on their way to one. So no installation begins without a decision of its own.
pub Steps-Accounted :
    (u : Live) (r : Steps false started u)
    → (u.pending_update ≡ shown_at u.place)
      × (length u.channel ≤ 1)
      × (confirmed r ≡ begun r + on_the_way u)
Steps-Accounted u r = let o = Steps-Ordered u r in (o.pending, o.room, accounted u r)
