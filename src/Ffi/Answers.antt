-- ===== src/Ffi/Answers.antt =====
-- src/ffi.rs: what the codes of a decision and of a question for the pending update tell.
use embuer.Base.{
  ℕ, Bool, true, false, Option, none, some, Result, ok, err, List, ◌≡◌, ◌≢◌, refl, ap, sym, ◌∙◌,
  ◌⊎◌, inl, inr, ◌↔◌,
}
use embuer.Text.{Text}
use embuer.Host.{Host}
use embuer.Service.State.{PendingUpdate}
use embuer.Dbus as dbus
use embuer.Proxy.{Link, up, down, lost, System, answer}
use embuer.Proxy as proxy
use embuer.Proxy.Confirms.{Queues, confirm_update-Queues}
use embuer.Ffi.{
  ℤ, Value, embuer_ok, embuer_err_no_pending_update, Pointer, Memory, finish, message, pending,
  has_nul, nonzero, embuer_get_pending_update, embuer_confirm_update,
}

module _ {H : Host} (mem : Memory) where
  finish-ok :
      (bad : Bool) (writes : List (ℕ × Value)) (s : System H)
      → (finish {H = H} bad writes mem s).0 ≡ embuer_ok
      → (finish {H = H} bad writes mem s).2 ≡ s
  unfolding finish
  finish-ok true writes s h = cc
  finish-ok false writes s h = refl

  message-ok :
      (out : ℕ) (r : Result Text Text) (t : System H)
      → (message {H = H} out mem (r, t)).0 ≡ embuer_ok
      → (msg : Text) × (r ≡ ok msg) × ((message {H = H} out mem (r, t)).2 ≡ t)
  unfolding message
  message-ok out (ok msg) t h = (msg, refl, finish-ok (has_nul msg) _ t h)
  message-ok out (err e) t h = cc

  -- When `embuer_confirm_update` returns EMBUER_OK, an update awaited a decision, and the decision,
  -- to accept if the argument is not 0, is now in the queue of the service.
  pub embuer_confirm_update-Queues :
      (client : Bool) (accepted : ℤ) (out : Pointer) (link : Link) (s : System H)
      → (embuer_confirm_update client accepted out link mem s).0 ≡ embuer_ok
      → Queues (nonzero accepted) s (embuer_confirm_update client accepted out link mem s).2
  unfolding embuer_confirm_update
  embuer_confirm_update-Queues false accepted out link s h = cc
  embuer_confirm_update-Queues true accepted none link s h = cc
  embuer_confirm_update-Queues true accepted (some p) link s h =
      let r = proxy.confirm_update (nonzero accepted) link s in
      let (msg, e, f) = message-ok p r.0 r.1 h in
      confirm_update-Queues (nonzero accepted) s link msg _
        (ap (λ x. (x, r.1)) e ∙ ap (λ t. (ok msg, t)) (sym f))

  finish_of :
      (bad : Bool) (writes : List (ℕ × Value)) (s : System H)
      → (finish {H = H} bad writes mem s).0 ≢ embuer_err_no_pending_update
  unfolding finish
  finish_of true writes s h = cc
  finish_of false writes s h = cc

  pending_code :
      (p q r : ℕ) (s : System H) (o : Option PendingUpdate)
      → s.service.pending_update ≡ o
      → (pending {H = H} p q r mem (dbus.get_pending_update s.service, s)).0
          ≡ embuer_err_no_pending_update
        ↔ (s.service.pending_update ≡ none) ⊎ (up ≢ up)
  unfolding pending dbus.get_pending_update
  pending_code p q r s none e = (λ _. inl e, λ _. rw e refl)
  pending_code p q r s (some u) e = (
    λ h.
        let same : (pending {H = H} p q r mem (dbus.get_pending_update s.service, s)).0
            ≡ (pending {H = H} p q r mem (ok (u.version, u.changelog, u.source), s)).0 =
          rw e refl in
        absurd (finish_of _ _ s (sym same ∙ h)),
    λ h. elim h [ inl f ↦ cc | inr f ↦ absurd (f refl) ],
  )

  -- With a handle and three pointers, the call returns EMBUER_ERR_NO_PENDING_UPDATE exactly when the
  -- service has no pending update or the bus fails: the code does not tell the two apart.
  pub embuer_get_pending_update-Unknown :
      (p q r : ℕ) (link : Link) (s : System H)
      → (embuer_get_pending_update true (some p) (some q) (some r) link mem s).0
          ≡ embuer_err_no_pending_update
        ↔ (s.service.pending_update ≡ none) ⊎ (link ≢ up)
  unfolding embuer_get_pending_update pending proxy.get_pending_update answer
      dbus.get_pending_update
  embuer_get_pending_update-Unknown p q r (down e) s = (λ _. inr (λ h. cc), λ _. refl)
  embuer_get_pending_update-Unknown p q r (lost e) s = (λ _. inr (λ h. cc), λ _. refl)
  embuer_get_pending_update-Unknown p q r up s = pending_code p q r s s.service.pending_update refl
