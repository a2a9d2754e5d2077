-- ===== src/Service/Periodic.antt =====
-- src/service.rs, `periodic_url_checker`: a task that sends requests to the loop's channel. Its
-- `select!` sees a signal to stop, or 500 ms pass; a send succeeds while the channel is open.
pub mod Once
use embuer.Base.{List, [], ◌∷◌, Bool, true, false}
use embuer.Text.{Text}
use embuer.Service.State.{UpdateSource, url}

pub data Tick : Type 0 where
  -- `notify.notified()`
  notified : Tick
  -- the sleep is over; the flag says whether the channel would take a request
  elapsed : Bool → Tick

-- The requests that the task sends, as the ticks come.
unfoldable pub checker : Text → Bool → List Tick → List UpdateSource
checker update_url update_done [] = []
checker update_url update_done (notified ∷ rest) = []
checker update_url true (elapsed sent ∷ rest) = checker update_url true rest
checker update_url false (elapsed true ∷ rest) = url update_url ∷ checker update_url true rest
checker update_url false (elapsed false ∷ rest) = []

unfoldable pub periodic_url_checker : Text → List Tick → List UpdateSource
unfolding checker
periodic_url_checker update_url ticks = checker update_url false ticks
