-- ===== src/Installer/Supported.antt =====
-- src/bin/embuer-installer.rs: the options with which the installer can succeed.
use embuer.Base.{◌≡◌, ◌⊎◌, refl, inl, inr, ap, Option, none, some, Result, ok, err}
use embuer.Text.{Text}
use embuer.Error.{ServiceError}
use embuer.Host.{Host, Env, M, Output, Failure, error, panic, abort, panics, throw}
use embuer.Host.Inversion.{bind-ok}
use embuer.Installer.Options.{
  Cli, Architecture, generic_amd64, generic_aarch64, imx8, Bootloader, refind, imx8_file,
  architecture, parse_bootloader,
}
use embuer.Installer.Disk.{
  MountType, release, drop_panics, after_release, released, scoped, with_image, with_device,
}
use embuer.Installer.Refind.{Carried, install_shim, install_bootloader_refind}
use embuer.Installer.Main.{Platform, install_refind, with_bootloader, with_rootfs, on_device, main}

-- One target, and a bootloader that is implemented for the architecture.
pub data Usable (arch : Architecture) : Option Bootloader → Type 0 where
  without : Usable arch none
  with_refind : arch ≡ generic_amd64 → Usable arch (some refind)

pub record Supported (H : Host) (cli : Cli) : Type 0 where
  pub target :
      ((d : Text) × (cli.device ≡ some d) × (cli.image ≡ none))
      ⊎ ((i : Text) × (cli.device ≡ none) × (cli.image ≡ some i))
  pub bootloader : Option Bootloader
  pub before : Env H
  pub after : Env H
  pub parsed : parse_bootloader H cli.bootloader before ≡ (ok bootloader, after)
  pub usable : Usable (architecture cli.arch) bootloader

drop_panics-ok : {A : Type 0} (r : Result Failure A) (a : A) → ¬ (drop_panics r ≡ ok a)
drop_panics-ok (err panic) a h = cc
drop_panics-ok (err abort) a h = cc
drop_panics-ok (err (error x)) a h = cc
drop_panics-ok (ok b) a h = cc

module _ {H : Host} {A : Type 0} where
  after_release-ok :
      (r : Result Failure A) (q : Result Failure Output × Env H) (a : A) (e' : Env H)
      → after_release H r q ≡ (ok a, e')
      → r ≡ ok a
  after_release-ok r (ok o, e) a e' h = ap (λ t. t.0) h
  after_release-ok r (err x, e) a e' h = absurd (drop_panics-ok r a (ap (λ t. t.0) h))

  released-ok :
      (m : MountType) (q : Result Failure A × Env H) (a : A) (e' : Env H)
      → released H m q ≡ (ok a, e')
      → q.0 ≡ ok a
  released-ok m (err abort, e) a e' h = cc (ap (λ t. t.0) h)
  released-ok m (err panic, e) a e' h = after_release-ok (err panic) (release H m e) a e' h
  released-ok m (err (error x), e) a e' h = after_release-ok (err (error x)) (release H m e) a e' h
  released-ok m (ok b, e) a e' h = after_release-ok (ok b) (release H m e) a e' h

  -- What is released behind an action that succeeds leaves its success.
  pub scoped-ok :
      (m : MountType) (body : M H A) (e e' : Env H) (a : A)
      → scoped H m body e ≡ (ok a, e')
      → (e₁ : Env H) × (body e ≡ (ok a, e₁))
  unfolding scoped
  scoped-ok m body e e' a h = let r = body e in (r.1, ap (λ t. (t, r.1)) (released-ok m r a e' h))

  throws_not : (x : ServiceError) (a : A) (e e' : Env H) → ¬ (throw {H = H} x e ≡ (ok a, e'))
  unfolding throw
  throws_not x a e e' h = cc (ap (λ t. t.0) h)

  panics_not : (a : A) (e e' : Env H) → ¬ (panics {H = H} e ≡ (ok a, e'))
  unfolding panics
  panics_not a e e' h = cc (ap (λ t. t.0) h)

module _ {H : Host} (X : Platform H) (cli : Cli) where
  install_shim-amd64 :
      (K : Carried) (arch : Architecture) (dir : Text) (e e' : Env H)
      → install_shim K H arch dir e ≡ (ok tt, e')
      → arch ≡ generic_amd64
  unfolding install_shim
  install_shim-amd64 K generic_amd64 dir e e' h = refl
  install_shim-amd64 K generic_aarch64 dir e e' h = absurd (throws_not _ tt e e' h)
  install_shim-amd64 K imx8 dir e e' h = absurd (throws_not _ tt e e' h)

  install_refind-amd64 :
      (uuid : Text) (e e' : Env H)
      → install_refind X cli uuid e ≡ (ok tt, e')
      → architecture cli.arch ≡ generic_amd64
  unfolding install_refind install_bootloader_refind
  install_refind-amd64 uuid e e' h =
      let (_, e₁, _, h₁) = bind-ok _ _ e e' tt h in
      let (_, e₂, _, h₂) = bind-ok _ _ e₁ e' tt h₁ in
      let (_, e₃, _, h₃) = bind-ok _ _ e₂ e' tt h₂ in
      let (_, e₄, _, h₄) = bind-ok _ _ e₃ e' tt h₃ in
      let (_, e₅, _, h₅) = bind-ok _ _ e₄ e' tt h₄ in
      let (_, e₆, _, h₆) = bind-ok _ _ e₅ e' tt h₅ in
      let (_, e₇, _, h₇) = bind-ok _ _ e₆ e' tt h₆ in
      let (_, e₈, _, h₈) = bind-ok _ _ e₇ e' tt h₇ in
      install_shim-amd64 X.carried (architecture cli.arch) _ e₈ e' h₈

  with_bootloader-Usable :
      (b : Option Bootloader) (disk uuid : Text) (e e' : Env H)
      → with_bootloader X cli b disk uuid e ≡ (ok tt, e')
      → Usable (architecture cli.arch) b
  unfolding with_bootloader
  with_bootloader-Usable none disk uuid e e' h = without
  with_bootloader-Usable (some (imx8_file path)) disk uuid e e' h = absurd (panics_not tt e e' h)
  with_bootloader-Usable (some refind) disk uuid e e' h =
      let (_, e₁, _, h₁) = bind-ok _ _ e e' tt h in
      let (_, e₂, _, h₂) = bind-ok _ _ e₁ e' tt h₁ in
      let (e₃, h₃) = scoped-ok _ _ e₂ e' tt h₂ in
      let (_, e₄, p₄, _) = bind-ok _ _ e₂ e₃ tt h₃ in
      with_refind (install_refind-amd64 uuid e₂ e₄ p₄)

  on_device-Usable :
      (disk : Text) (e e' : Env H)
      → on_device X cli disk e ≡ (ok tt, e')
      → (b : Option Bootloader) × (e₁ : Env H) × (parse_bootloader H cli.bootloader e ≡ (ok b, e₁))
        × Usable (architecture cli.arch) b
  unfolding on_device with_rootfs
  on_device-Usable disk e e' h =
      let (b, e₁, p₁, h₁) = bind-ok _ _ e e' tt h in
      let (_, e₂, _, h₂) = bind-ok _ _ e₁ e' tt h₁ in
      let (_, e₃, _, h₃) = bind-ok _ _ e₂ e' tt h₂ in
      let (_, e₄, _, h₄) = bind-ok _ _ e₃ e' tt h₃ in
      let (e₅, h₅) = scoped-ok _ _ e₄ e' tt h₄ in
      let (uuid, e₆, _, h₆) = bind-ok _ _ e₄ e₅ tt h₅ in
      (b, e₁, p₁, with_bootloader-Usable b disk uuid e₆ e₅ h₆)

  supported :
      (disk : Text) (e e' : Env H)
      → ((d : Text) × (cli.device ≡ some d) × (cli.image ≡ none))
        ⊎ ((i : Text) × (cli.device ≡ none) × (cli.image ≡ some i))
      → on_device X cli disk e ≡ (ok tt, e')
      → Supported H cli
  supported disk e e' t h =
      let (b, e₁, p, u) = on_device-Usable disk e e' h in
      record { target = t; bootloader = b; before = e; after = e₁; parsed = p; usable = u }

  with_device-Supported :
      (dev img : Option Text) (e e' : Env H)
      → cli.device ≡ dev
      → cli.image ≡ img
      → with_device H dev img cli.image_size (on_device X cli) e ≡ (ok tt, e')
      → Supported H cli
  unfolding with_device with_image
  with_device-Supported (some d) (some i) e e' p q h = absurd (throws_not _ tt e e' h)
  with_device-Supported none none e e' p q h = absurd (throws_not _ tt e e' h)
  with_device-Supported (some d) none e e' p q h = supported d e e' (inl (d, p, q)) h
  with_device-Supported none (some i) e e' p q h =
      let (_, e₁, _, h₁) = bind-ok _ _ e e' tt h in
      let (loopdev, e₂, _, h₂) = bind-ok _ _ e₁ e' tt h₁ in
      let (e₃, h₃) = scoped-ok _ _ e₂ e' tt h₂ in supported loopdev e₂ e₃ (inr (i, p, q)) h₃

  -- When the installer succeeds, exactly one of the device and the image was given, and the
  -- bootloader that its option was read as is none, or rEFInd on x86_64. With an IMX8 bootloader,
  -- or with rEFInd on another architecture, it always fails.
  pub main-Supported : (e e' : Env H) → main X cli e ≡ (ok tt, e') → Supported H cli
  unfolding main
  main-Supported e e' h =
      let (_, e₁, _, h₁) = bind-ok _ _ e e' tt h in
      with_device-Supported cli.device cli.image e₁ e' refl refl h₁
