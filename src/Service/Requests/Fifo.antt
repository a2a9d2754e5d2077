-- ===== src/Service/Requests/Fifo.antt =====
-- src/dbus.rs with src/service.rs: the requests of the clients, through the channel to the loop.
use embuer.Base.{
  List, [], ◌∷◌, ◌++◌, ◌≡◌, refl, sym, ap, ◌∙◌, append_assoc, append-nil, Bool, true, false, err,
  if◌then◌else◌,
}
use embuer.Text.{Text}
use embuer.Host.{Host}
use embuer.Dbus.{Requests, send, install_update_from_file, install_update_from_url}
use embuer.Service.State.{UpdateSource, url, file, ServiceInner, ServiceState}
use embuer.Service.Process.{External}
use embuer.Service.Requests.{
  Sources, Flow, next, dead, and_then, handle_request, update_request_loop,
}

-- The calls of the clients for these updates, in their order.
abbrev pub submitted : (H : Host) → H.State → UpdateSource → Requests → Requests
submitted H at (url u) q = (install_update_from_url u q).1
submitted H at (file path) q = (install_update_from_file H at path q).1

unfoldable pub submit_all : (H : Host) → H.State → List UpdateSource → Requests → Requests
submit_all H at [] q = q
submit_all H at (source ∷ rest) q = submit_all H at rest (submitted H at source q)

-- A file that does not exist is refused.
abbrev pub is_accepted : (H : Host) → H.State → UpdateSource → Bool
is_accepted H at (url u) = true
is_accepted H at (file path) = H.exists at path

-- The channel, open, with these requests
abbrev pub holding : List UpdateSource → Requests
holding sources = record { is_open = true; queue = sources }

module _ (H : Host) (at : H.State) where
  abbrev taken : Bool → UpdateSource → List UpdateSource → List UpdateSource
  taken true source rest = source ∷ rest
  taken false source rest = rest

  accepted : List UpdateSource → List UpdateSource
  accepted [] = []
  accepted (source ∷ rest) = taken (is_accepted H at source) source (accepted rest)

  file_sent :
      (b : Bool) (path reply refusal : Text) (sources : List UpdateSource)
      → (if b then send (file path) reply (holding sources) else (err refusal, holding sources)).1
        ≡ holding (sources ++ taken b (file path) [])
  file_sent true path reply refusal sources = refl
  file_sent false path reply refusal sources = ap holding (sym (append-nil sources))

  submitted-holding :
      (source : UpdateSource) (sources : List UpdateSource)
      → submitted H at source (holding sources)
        ≡ holding (sources ++ taken (is_accepted H at source) source [])
  unfolding install_update_from_file install_update_from_url
  submitted-holding (url u) sources = refl
  submitted-holding (file path) sources = file_sent (H.exists at path) path _ _ sources

  append-taken :
      (b : Bool) (source : UpdateSource) (xs ys : List UpdateSource)
      → (xs ++ taken b source []) ++ ys ≡ xs ++ taken b source ys
  append-taken true source xs ys = append_assoc xs (source ∷ []) ys
  append-taken false source xs ys = append_assoc xs [] ys

  submit_all-holding :
      (sources before : List UpdateSource)
      → submit_all H at sources (holding before) ≡ holding (before ++ accepted sources)
  unfolding submit_all accepted
  submit_all-holding [] before = ap holding (sym (append-nil before))
  submit_all-holding (source ∷ rest) before =
      let b = is_accepted H at source in
      ap (λ q. submit_all H at rest q) (submitted-holding source before)
      ∙ submit_all-holding rest (before ++ taken b source [])
      ∙ ap holding (append-taken b source before (accepted rest))

module _ (X : External) {H : Host} (Q : Sources H) (inner : ServiceInner) (auto_install : Bool)
    (at : H.State) where
  abbrev pub serve : Bool → UpdateSource → ServiceState H → Flow H
  serve true source s = handle_request X Q inner auto_install source s
  serve false source s = next s

  -- What the clients may expect: each request that is accepted is handled once, before the next one.
  unfoldable pub serve_all : List UpdateSource → ServiceState H → Flow H
  serve_all [] s = next s
  serve_all (source ∷ rest) s =
      and_then (serve (is_accepted H at source) source s) (λ t. serve_all rest t)

  and_then-ext :
      (f : Flow H) (g k : ServiceState H → Flow H)
      → ((t : ServiceState H) → g t ≡ k t)
      → and_then f g ≡ and_then f k
  unfolding and_then
  and_then-ext (dead s) g k h = refl
  and_then-ext (next s) g k h = h s

  loop-taken :
      (b : Bool) (source : UpdateSource) (more : List UpdateSource)
      (later : ServiceState H → Flow H) (s : ServiceState H)
      → ((t : ServiceState H) → update_request_loop X Q inner auto_install more t ≡ later t)
      → update_request_loop X Q inner auto_install (taken H at b source more) s
        ≡ and_then (serve b source s) later
  unfolding update_request_loop and_then
  loop-taken true source more later s h =
      and_then-ext (handle_request X Q inner auto_install source s) _ later h
  loop-taken false source more later s h = h s

  loop-serve_all :
      (sources : List UpdateSource) (s : ServiceState H)
      → update_request_loop X Q inner auto_install (accepted H at sources) s ≡ serve_all sources s
  unfolding update_request_loop serve_all accepted
  loop-serve_all [] s = refl
  loop-serve_all (source ∷ rest) s =
      loop-taken (is_accepted H at source) source (accepted H at rest) serve_all_rest s
        (λ t. loop-serve_all rest t)
    where
      serve_all_rest : ServiceState H → Flow H
      serve_all_rest t = serve_all rest t

  -- The interface on D-Bus, the channel and the loop together refine handling one request after the
  -- other: when the clients' calls are served before the loop takes the first of them, it handles
  -- each update that was accepted once, in the order of the calls, and none of those refused.
  pub update_request_loop-Serves :
      (sources : List UpdateSource) (s : ServiceState H)
      → update_request_loop X Q inner auto_install (submit_all H at sources (holding [])).queue s
        ≡ serve_all sources s
  update_request_loop-Serves sources s =
      ap (λ q. update_request_loop X Q inner auto_install q.queue s)
        (submit_all-holding H at sources [])
      ∙ loop-serve_all sources s
