-- ===== src/Install/Activates.antt =====
-- src/core.rs, `install_update`: what a success means.
use embuer.Base.{
  List, [], ◌∷◌, ◌++◌, ◌≡◌, refl, sym, ap, ◌∙◌, ℕ, Option, none, some, Result, ok, err,
}
use embuer.Text.{Text, text, join}
use embuer.Host.{Host, Env, Event, btrfs, pure, lift, ◌>>=◌, run_btrfs}
use embuer.Host.Inversion.{bind-ok, pure-ok}
use embuer.Error.{ServiceError}
use embuer.Crypto.{Crypto}
use embuer.Manifest.{Manifest}
use embuer.Signature.{PublicKey}
use embuer.Stream.{Reader}
use embuer.Stream.Hashing
use embuer.Btrfs.{run_and_get_stdout}
use embuer.Btrfs.Change.{set_default_args, subvolume_set_default}
use embuer.Receive.{receive_btrfs_stream}
use embuer.Install.{subvol_id, Received, inspect, activate, deploy, conclude, install_update}

run_and_get_stdout-trace :
    (H : Host) (args : List Text) (e e' : Env H) (out : Text)
    → run_and_get_stdout H args e ≡ (ok out, e')
    → e'.trace ≡ e.trace ++ btrfs args ∷ []
unfolding run_and_get_stdout run_btrfs lift
run_and_get_stdout-trace H args e e' out h =
    let (o, e₁, p, q) = bind-ok _ _ e e' out h in
    ap (λ r. r.1.trace) (sym q) ∙ ap (λ r. r.1.trace) (sym p)

pub subvolume_set_default-trace :
    (H : Host) (id : ℕ) (rootfs : Text) (e e' : Env H)
    → subvolume_set_default H id rootfs e ≡ (ok tt, e')
    → e'.trace ≡ e.trace ++ btrfs (set_default_args id rootfs) ∷ []
unfolding subvolume_set_default pure
subvolume_set_default-trace H id rootfs e e' h =
    let (out, e₁, p, q) = bind-ok _ _ e e' tt h in
    ap (λ r. r.1.trace) (sym q) ∙ run_and_get_stdout-trace H _ e e₁ out p

-- The last command makes the subvolume the default.
unfoldable pub EndsWithDefault : Text → ℕ → List Event → Type 0
EndsWithDefault rootfs id trace =
    (before : List Event) × (trace ≡ before ++ btrfs (set_default_args id rootfs) ∷ [])

module _ (H : Host) (rootfs dir boot name : Text) where
  activate-default :
      (r : Received) (e e' : Env H) (result : Option Text)
      → activate H rootfs dir boot name r e ≡ (ok result, e')
      → (result ≡ some name) × EndsWithDefault rootfs r.id e'.trace
  unfolding activate EndsWithDefault
  activate-default r e e' result h =
      let (u, e₁, p, q) = bind-ok _ _ e e' result h in
      let (v, e₂, p', q') = bind-ok _ _ e₁ e' result q in
      let (same, at) = pure-ok _ _ e₂ e' q' in
      (
        sym same,
        (e₁.trace, ap (λ x. x.trace) (sym at) ∙ subvolume_set_default-trace H r.id rootfs e₁ e₂ p'),
      )

  inspect-id :
      (from_str : Text → Result Text Manifest) (path : Text) (hash : Option Text) (r : Received)
      (e e' : Env H)
      → inspect H from_str path hash e ≡ (ok r, e')
      → (e₁ : Env H) × (subvol_id H path e ≡ (ok r.id, e₁))
  unfolding inspect
  inspect-id from_str path hash r e e' h =
      let (id, e₁, p₁, h₁) = bind-ok _ _ e e' r h in
      let (u, e₂, p₂, h₂) = bind-ok _ _ e₁ e' r h₁ in
      let (manifest, e₃, p₃, h₃) = bind-ok _ _ e₂ e' r h₂ in
      let (v, e₄, p₄, h₄) = bind-ok _ _ e₃ e' r h₃ in
      let (text, e₅, p₅, h₅) = bind-ok _ _ e₄ e' r h₄ in
      let (same, at) = pure-ok _ _ e₅ e' h₅ in (e₁, p₁ ∙ ap (λ n. (ok n, e₁)) (ap (λ x. x.id) same))

-- The subvolume with this number, which `btrfs` gave for its path, is the default one at the end.
pub record Activated (H : Host) (rootfs dir name : Text) (e e' : Env H) : Type 0 where
  pub id : ℕ
  pub after : Env H
  pub number : subvol_id H (join dir name) e ≡ (ok id, after)
  pub default : EndsWithDefault rootfs id e'.trace

module _ (C : Crypto) (from_str : Text → Result Text Manifest) (H : Host)
    (signature : Option (PublicKey × List ℕ)) (rootfs dir boot : Text) where
  deploy-Activated :
      (hash : Option Text) (name : Text) (e e' : Env H) (result : Option Text)
      → deploy C from_str H signature rootfs dir boot hash name e ≡ (ok result, e')
      → (result ≡ some name) × Activated H rootfs dir name e e'
  unfolding deploy
  deploy-Activated hash name e e' result h =
      let (r, e₁, p₁, h₁) = bind-ok _ _ e e' result h in
      let (u, e₂, p₂, h₂) = bind-ok _ _ e₁ e' result h₁ in
      let (same, ends) = activate-default H rootfs dir boot name r e₂ e' result h₂ in
      let (after, number) =
        inspect-id H rootfs dir boot name from_str (join dir name) hash r e e₁ p₁ in
      (same, record { id = r.id; after = after; number = number; default = ends })

  conclude-Activated :
      (hash : Option Text) (found : Result ServiceError (Option Text)) (e e' : Env H)
      (result : Option Text)
      → conclude C from_str H signature rootfs dir boot hash found e ≡ (ok result, e')
      → (name : Text) × (found ≡ ok (some name))
        × (result ≡ some name)
        × Activated H rootfs dir name e e'
  unfolding conclude ◌>>=◌
  conclude-Activated hash (err x) e e' result h = cc (ap (λ r. r.0) h)
  conclude-Activated hash (ok none) e e' result h = cc (ap (λ r. r.0) h)
  conclude-Activated hash (ok (some name)) e e' result h =
      let (same, done) = deploy-Activated hash name e e' result h in (name, refl, same, done)

  -- An installation that succeeds, with or without a key, gives the name that the received stream
  -- gave to its subvolume. Its last command makes the default of the subvolume whose number `btrfs`
  -- gave for the path of that name.
  pub install_update-Activated :
      {S : Type 0} (poll_read : Reader S) (reader : S) (e : Env H) (result : Option Text)
      → (install_update C from_str H poll_read signature rootfs dir boot reader e).0 ≡ ok result
      → let received =
          receive_btrfs_stream H (Hashing.poll_read C poll_read) dir (Hashing.new C reader) e in
        (name : Text) × (received.0 ≡ ok (some name))
        × (result ≡ some name)
        × Activated H rootfs dir name received.2
            (install_update C from_str H poll_read signature rootfs dir boot reader e).2
  unfolding install_update
  install_update-Activated poll_read reader e result h =
      let after = (install_update C from_str H poll_read signature rootfs dir boot reader e).2 in
      conclude-Activated _ _ _ after result (ap (λ r. (r, after)) h)
