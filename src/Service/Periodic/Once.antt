-- ===== src/Service/Periodic/Once.antt =====
-- src/service.rs, `periodic_url_checker`: how often it asks.
use embuer.Base.{List, [], ◌∷◌, ◌≡◌, refl, ap, true, false}
use embuer.Text.{Text}
use embuer.Service.State.{UpdateSource, url}
use embuer.Service.Periodic.{Tick, notified, elapsed, checker, periodic_url_checker}

-- The requests that the first tick alone decides on.
unfoldable pub at_first_tick : Text → List Tick → List UpdateSource
at_first_tick update_url (elapsed true ∷ rest) = url update_url ∷ []
at_first_tick update_url _ = []

checker-done : (update_url : Text) (ticks : List Tick) → checker update_url true ticks ≡ []
unfolding checker
checker-done update_url [] = refl
checker-done update_url (notified ∷ rest) = refl
checker-done update_url (elapsed sent ∷ rest) = checker-done update_url rest

-- Whatever the ticks, the checker sends one request when the first of them is a sleep that is over
-- with the channel open, and no request otherwise: it does not ask again later.
pub periodic_url_checker-at_first_tick :
    (update_url : Text) (ticks : List Tick)
    → periodic_url_checker update_url ticks ≡ at_first_tick update_url ticks
unfolding periodic_url_checker checker at_first_tick
periodic_url_checker-at_first_tick update_url [] = refl
periodic_url_checker-at_first_tick update_url (notified ∷ rest) = refl
periodic_url_checker-at_first_tick update_url (elapsed false ∷ rest) = refl
periodic_url_checker-at_first_tick update_url (elapsed true ∷ rest) =
    ap (λ l. url update_url ∷ l) (checker-done update_url rest)
