-- ===== src/Ffi/Delivers.antt =====
-- src/ffi.rs, `embuer_watch_status`: which statuses reach the callback.
use embuer.Base.{
  List, [], ◌∷◌, ◌++◌, ◌≡◌, Bool, true, false, ◌||◌, none, Result, ok, All, Bool-cases, inl, inr,
}
use embuer.Text.{Text}
use embuer.Host.{Host}
use embuer.Dbus.{Shown}
use embuer.Dbus as dbus
use embuer.Proxy.{System, up, answer}
use embuer.Proxy as proxy
use embuer.Ffi.{embuer_ok, embuer_err_dbus, has_nul, c_int}
use embuer.Ffi.Watch.{Callback, Watched, report, follow, subscribed, embuer_watch_status}

-- Whether one of the two texts has a NUL character, which no C string has.
abbrev pub is_broken : Shown → Bool
is_broken (status, details, progress) = has_nul status || has_nul details

abbrev pub callbacks : List Shown → List Callback
callbacks [] = []
callbacks ((status, details, progress) ∷ rest) = (status, details, c_int progress) ∷ callbacks rest

-- Signals whose arguments can be read
abbrev pub signals : List Shown → List (Result Text Shown)
signals [] = []
signals (s ∷ rest) = ok s ∷ signals rest

-- All statuses are delivered, or those in front of the first that is broken, with an error.
pub data Delivers : List Shown → Watched → Type 0 where
  whole :
      (statuses : List Shown)
      → All (λ s. is_broken s ≡ false) statuses
      → Delivers statuses (embuer_ok, callbacks statuses)
  cut :
      (before : List Shown) (bad : Shown) (after : List Shown)
      → All (λ s. is_broken s ≡ false) before
      → is_broken bad ≡ true
      → Delivers (before ++ bad ∷ after) (embuer_err_dbus, callbacks before)

Delivers-behind :
    (s : Shown) (statuses : List Shown) (w : Watched)
    → is_broken s ≡ false
    → Delivers statuses w
    → Delivers (s ∷ statuses) (report s w)
unfolding report
Delivers-behind (status, details, progress) _ _ h (whole statuses all) =
    rw h (whole ((status, details, progress) ∷ statuses) (h, all))
Delivers-behind (status, details, progress) _ _ h (cut before bad after all b) =
    rw h (cut ((status, details, progress) ∷ before) bad after (h, all) b)

report-Delivers :
    (s : Shown) (statuses : List Shown) (w : Watched)
    → Delivers statuses w
    → Delivers (s ∷ statuses) (report s w)
unfolding report
report-Delivers (status, details, progress) statuses w d =
    elim (Bool-cases (has_nul status || has_nul details)) [
      | inl broken ↦ rw broken (cut [] (status, details, progress) statuses tt broken)
      | inr fine ↦ Delivers-behind (status, details, progress) statuses w fine d
    ]

follow-Delivers : (statuses : List Shown) → Delivers statuses (follow (signals statuses))
unfolding follow
follow-Delivers [] = whole [] tt
follow-Delivers (s ∷ rest) = report-Delivers s rest (follow (signals rest)) (follow-Delivers rest)

-- While the bus works, the callback gets the status at the start and then each status that is
-- signalled, in their order, and the call returns EMBUER_OK at the end of the signals. A text with a
-- NUL character ends it before with EMBUER_ERR_DBUS: then the statuses in front of it have been
-- delivered.
pub embuer_watch_status-Delivers :
    {H : Host} (statuses : List Shown) (s : System H)
    → Delivers
        (dbus.get_update_status s.service ∷ statuses)
        (embuer_watch_status true up none (signals statuses) s)
unfolding embuer_watch_status subscribed proxy.get_update_status answer
embuer_watch_status-Delivers statuses s =
    report-Delivers (dbus.get_update_status s.service) statuses (follow (signals statuses))
      (follow-Delivers statuses)
