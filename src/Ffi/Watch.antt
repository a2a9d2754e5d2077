-- ===== src/Ffi/Watch.antt =====
-- src/ffi.rs, `embuer_watch_status`. The calls of the callback are listed in their order. The
-- signals are those that the stream gives until it ends; the arguments of one may be unreadable.
use embuer.Base.{
  Bool, true, false, Option, none, some, Result, ok, err, List, [], ◌∷◌, if◌then◌else◌, ◌||◌,
}
use embuer.Text.{Text}
use embuer.Host.{Host}
use embuer.Dbus.{Shown}
use embuer.Proxy.{Link, System, get_update_status}
use embuer.Ffi.{ℤ, Code, embuer_ok, embuer_err_dbus, embuer_err_null_ptr, has_nul, c_int}

-- The arguments that the callback is given
abbrev pub Callback : Type 0
Callback = Text × Text × ℤ

abbrev pub Watched : Type 0
Watched = Code × List Callback

-- One status, and what is behind it. A text with a NUL character is an error like one of the bus.
unfoldable pub report : Shown → Watched → Watched
unfolding has_nul c_int
report (status, details, progress) (code, calls) =
    if has_nul status || has_nul details
    then (embuer_err_dbus, [])
    else (code, (status, details, c_int progress) ∷ calls)

unfoldable pub follow : List (Result Text Shown) → Watched
unfolding report
follow [] = (embuer_ok, [])
follow (err e ∷ rest) = (embuer_err_dbus, [])
follow (ok args ∷ rest) = report args (follow rest)

-- `receive_update_status_changed`, and the loop
unfoldable pub subscribed : Option Text → List (Result Text Shown) → Watched
unfolding follow
subscribed (some e) signals = (embuer_err_dbus, [])
subscribed none signals = follow signals

abbrev pub watch : {H : Host} → Result Text Shown × System H → Watched → Watched
watch (err e, s) later = (embuer_err_dbus, [])
watch (ok first, s) later = report first later

unfoldable pub embuer_watch_status :
    {H : Host} → Bool → Link → Option Text → List (Result Text Shown) → System H → Watched
unfolding subscribed report
embuer_watch_status false link subscription signals s = (embuer_err_null_ptr, [])
embuer_watch_status true link subscription signals s =
    watch (get_update_status link s) (subscribed subscription signals)
