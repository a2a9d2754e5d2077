-- ===== src/Programs/Client/Effects.antt =====
-- src/bin/embuer-client.rs: what the commands do to the service.
use embuer.Base.{
  Bool, true, false, Option, none, some, Result, ok, err, ◌≡◌, refl, ap, sym, ◌∙◌, if◌then◌else◌,
}
use embuer.Text.{Text}
use embuer.Host.{Host}
use embuer.Proxy.{Link, up, down, lost, System, answer}
use embuer.Proxy as proxy
use embuer.Proxy.Confirms.{Queues, confirm_update-Queues}
use embuer.Programs.Client.{accept, reject, Session, answered, connected, run, main, confirm_update}
use embuer.Programs.Client.Output.{Terminal, finished, confirm_lines}

module _ {H : Host} (T : Terminal) where
  decided :
      (accepted : Bool) (r : Result Text Text) (s t : System H)
      → (answered T (confirm_lines T accepted) (r, t)).0.1 ≡ finished
      → (msg : Text) × (r ≡ ok msg) × ((answered T (confirm_lines T accepted) (r, t)).1 ≡ t)
  unfolding answered
  decided accepted (ok msg) s t h = (msg, refl, refl)
  decided accepted (err e) s t h = cc

  confirm-Queues :
      (accepted : Bool) (x : Session) (s : System H)
      → (connected T x.connection s (confirm_update T accepted x s)).0.1 ≡ finished
      → Queues accepted s (connected T x.connection s (confirm_update T accepted x s)).1
  unfolding connected confirm_update
  confirm-Queues accepted x s h = go x.connection h
    where
      go :
          (c : Option Text)
          → (connected T c s (confirm_update T accepted x s)).0.1 ≡ finished
          → Queues accepted s (connected T c s (confirm_update T accepted x s)).1
      go none k =
          let r = proxy.confirm_update accepted x.link s in
          let (msg, e, f) = decided accepted r.0 s r.1 k in
          confirm_update-Queues accepted s x.link msg _
            (ap (λ y. (y, r.1)) e ∙ ap (λ t. (ok msg, t)) (sym f))
      go (some e) k = cc

  -- When `embuer-client accept` or `embuer-client reject` ends well, an update awaited a decision,
  -- and this decision is in the queue of the service, with nothing else changed.
  pub main-Queues :
      (accepted : Bool) (x : Session) (s : System H)
      → (main T (if accepted then accept else reject) x s).0.1 ≡ finished
      → Queues accepted s (main T (if accepted then accept else reject) x s).1
  unfolding main run
  main-Queues true x s h = confirm-Queues true x s h
  main-Queues false x s h = confirm-Queues false x s h
