-- ===== src/Tests/Programs.antt =====
-- src/ffi.rs, src/bin/embuer-client.rs and the end of the service: their theorems, at a service
-- where an update awaits its confirmation.
use embuer.Base.{true, false, [], ◌∷◌, ◌≢◌, refl, none, some, ok}
use embuer.Text.{text}
use embuer.Status.{awaiting_confirmation, installing, percent, progress}
use embuer.Service.State.{ServiceState}
use embuer.Service.Start.{initial}
use embuer.Service.Stop.{
  Phase, Checker, waiting, returned, at_once, then, signals, started, notify_waiters,
}
use embuer.Service.Stop.Waits.{Steps-ne-returned}
use embuer.Proxy.{System, up}
use embuer.Proxy as proxy
use embuer.Dbus as dbus
use embuer.Proxy.Confirms.{Queues}
use embuer.Ffi.{Memory, unset}
use embuer.Ffi.Writes.{Returns, serve-Returns, serve, get_status}
use embuer.Dbus.{Shown}
use embuer.Ffi.Watch.{embuer_watch_status}
use embuer.Ffi.Delivers.{Delivers, embuer_watch_status-Delivers}
use embuer.Programs.Client as client
use embuer.Programs.Client.Effects.{main-Queues}
use embuer.Programs.Client.Output.{Terminal, confirm_lines}
use embuer.Tests.World.{host, env, inner}

abbrev service_with : embuer.Status.UpdateStatus → ServiceState host
service_with status = record (initial env) {
  update_status = status;
  pending_update = some (record { version = text "2"; changelog = text "v2"; source = text "u" });
}

abbrev system : System host
system = record {
  inner = inner;
  service = service_with (awaiting_confirmation (text "2") (text "u"));
  requests = record { is_open = true; queue = [] };
}

abbrev memory : Memory
memory = λ address. unset

serve-Returns_example :
    Returns
      (some 1 ∷ some 2 ∷ some 3 ∷ [])
      memory
      (serve (get_status (some 1) (some 2) (some 3)) true up memory system)
serve-Returns_example = serve-Returns true (get_status (some 1) (some 2) (some 3)) up memory system

Steps-ne-returned_example :
    (record (started waiting) { phase = Phase.at_checker; checker = Checker.gone }).phase ≢ returned
unfolding notify_waiters
Steps-ne-returned_example =
    Steps-ne-returned waiting
      (record (started waiting) { phase = Phase.at_checker; checker = Checker.gone })
      (then (started waiting) _ at_once (signals refl refl))

abbrev terminal : Terminal
terminal = record { paint = λ style t. t; padded = λ width t. t; now = [] }

abbrev session : client.Session
session = record { connection = none; link = up; subscription = none; signals = [] }

main-Queues_example : Queues false system (client.main terminal client.reject session system).1
unfolding client.main proxy.confirm_update dbus.confirm_update confirm_lines
main-Queues_example = main-Queues terminal false session system refl

abbrev next_status : Shown
next_status = (text "Installing", text "u", percent 5)

embuer_watch_status-Delivers_example :
    Delivers
      (dbus.get_update_status system.service ∷ next_status ∷ [])
      (embuer_watch_status true up none (ok next_status ∷ []) system)
embuer_watch_status-Delivers_example = embuer_watch_status-Delivers (next_status ∷ []) system
