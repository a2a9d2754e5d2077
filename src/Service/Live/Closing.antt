-- ===== src/Service/Live/Closing.antt =====
-- src/service.rs, `process_update_entry`: the steps of the tasks, with the arm of the match for a
-- channel that is closed.
use embuer.Base.{Bool, [], none, ◌≡◌}
use embuer.Text.{text}
use embuer.Status.{failed}
use embuer.Service.State.{PendingUpdate}
use embuer.Service.Live.{at_request, awaiting, Live, Step, Steps}
use embuer.Service.Live as live

module _ (auto : Bool) where
  -- Steps, where `recv` gives `None` to an update for which there is no decision and no sender.
  pub data Closing (t : Live) : Live → Type 0 where
    at_once : Closing t t
    then : (u v : Live) → Closing t u → Step auto u v → Closing t v
    closes :
        (u : Live) (update : PendingUpdate)
        → Closing t u
        → u.place ≡ awaiting update
        → u.channel ≡ []
        → u.senders ≡ []
        → Closing t (record u {
          place = at_request;
          update_status = failed update.source (text "Confirmation channel closed");
          pending_update = none;
        })

module _ {auto : Bool} where
  pub once : {t u : Live} → Step auto t u → Closing auto t u
  once st = then _ _ at_once st

  pub Closing-trans :
      {t u : Live} (v : Live) → Closing auto t u → Closing auto u v → Closing auto t v
  Closing-trans _ r at_once = r
  Closing-trans _ r (then u v q st) = then u v (Closing-trans u r q) st
  Closing-trans _ r (closes u w q p c s) = closes u w (Closing-trans u r q) p c s

  pub Steps-Closing : {t : Live} (u : Live) → Steps auto t u → Closing auto t u
  Steps-Closing _ live.at_once = at_once
  Steps-Closing _ (live.then u v q st) = then u v (Steps-Closing u q) st
