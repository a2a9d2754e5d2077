-- ===== src/Installer/Checked.antt =====
-- src/bin/embuer-installer.rs, `main`: what a manual installation has checked.
use embuer.Base.{◌≡◌, ℕ, true, false, Result, ok}
use embuer.Text.{Text, text, join}
use embuer.Host.{Host, Env}
use embuer.Manifest.{Manifest, from_file}
use embuer.Btrfs.Query.{btrfs_subvol_get_id}
use embuer.Btrfs.Access.{Answers}
use embuer.Install.{manifest_path}
use embuer.Install.Activates.{EndsWithDefault}

-- The states of the host in which each check was made, in their order.
pub record Checked (from_str : Text → Result Text Manifest) (H : Host) (rootfs mount : Text)
    (e e' : Env H) : Type 0 where
  pub at_boot : H.exists e.host (join (join rootfs (text "boot")) (text "bzImage")) ≡ true
  pub at_manifest : H.exists e.host (manifest_path rootfs) ≡ true
  pub manifest : Manifest
  pub e₁ : Env H
  pub e₂ : Env H
  pub e₃ : Env H
  pub id : ℕ
  pub reads : from_file from_str H (manifest_path rootfs) e ≡ (ok manifest, e₁)
  pub number : btrfs_subvol_get_id H rootfs e₁ ≡ (ok id, e₂)
  pub sealed : manifest.readonly ≡ true → Answers H rootfs (text "ro=false") (text "ro=true") e₃
  pub unsealed : manifest.readonly ≡ false → Answers H rootfs (text "ro=true") (text "ro=false") e₃
  pub default : EndsWithDefault mount id e'.trace
