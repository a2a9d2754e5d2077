-- ===== src/Programs/Bundle/Verified.antt =====
-- src/bin/embuer-genupdate.rs: what a package that was made has been checked for, and what is
-- removed behind it.
use embuer.Base.{List, [], ◌∷◌, ◌++◌, ◌≡◌, refl, ap, sym, ◌∙◌, true, some, ok}
use embuer.Text.{Text}
use embuer.Host.{Host, Env, Event, changed, remove_file, Output, ◌>>◌, change}
use embuer.Host.Inversion.{bind-ok, ensure-ok, asks-ok}
use embuer.Programs.Bundle.{
  Cli, update_btrfs_xz, update_signature_path, sign, verify_args, verify, pack, clean_up, main,
}

-- The last event of a trace.
unfoldable pub LastIs : Event → List Event → Type 0
LastIs x trace = (before : List Event) × (trace ≡ before ++ x ∷ [])

-- The check of the signature succeeded, and the package was made behind it.
pub record Verified (H : Host) (cli : Cli) (pubkey_path : Text) (e : Env H) : Type 0 where
  pub signed : Env H
  pub verified : Env H
  pub packed : Env H
  pub signature : Output
  pub result : Output
  pub tarball : Output
  pub before : Env H
  pub signs : sign H cli before ≡ (ok signature, signed)
  pub verifies : verify_args H cli pubkey_path signed ≡ (ok result, verified)
  pub succeeds : result.success ≡ true
  pub packs : pack H cli verified ≡ (ok tarball, packed)
  pub cleans : clean_up H cli packed ≡ (ok tt, e)

module _ (H : Host) (cli : Cli) where
  -- With a public key, a success means that openssl has verified the signature of the update with
  -- that key, behind its signing and before the package was made.
  pub main-Verified :
      (pubkey_path : Text) (e e' : Env H)
      → cli.public_key_pem ≡ some pubkey_path
      → main H cli e ≡ (ok tt, e')
      → Verified H cli pubkey_path e'
  unfolding main verify
  main-Verified pubkey_path e e' key h =
      let (_, e₁, _, h₁) = bind-ok _ _ e e' tt h in
      let (signature, e₂, p₂, h₂) = bind-ok _ _ e₁ e' tt h₁ in
      let (_, e₃, p₃, h₃) = bind-ok _ _ e₂ e' tt h₂ in
      let (tarball, e₄, p₄, h₄) = bind-ok _ _ e₃ e' tt h₃ in
      let (result, v, s) = verified e₂ e₃ (ap (λ k. verify H cli k e₂) (sym key) ∙ p₃) in
      record {
        signed = e₂;
        verified = e₃;
        packed = e₄;
        signature = signature;
        result = result;
        tarball = tarball;
        before = e₁;
        signs = p₂;
        verifies = v;
        succeeds = s;
        packs = p₄;
        cleans = h₄;
      }
    where
      verified :
          (a b : Env H)
          → verify H cli (some pubkey_path) a ≡ (ok tt, b)
          → (o : Output) × (verify_args H cli pubkey_path a ≡ (ok o, b)) × (o.success ≡ true)
      verified a b p =
          let (found, a₁, p₁, q₁) = bind-ok _ _ a b tt p in
          let (_, a₂, p₂, q₂) = bind-ok _ _ a₁ b tt q₁ in
          let (o, a₃, p₃, q₃) = bind-ok _ _ a₂ b tt q₂ in
          let (same, at) = ensure-ok o.success _ a₃ b q₃ in
          let (_, at₁) = asks-ok _ found a a₁ p₁ in
          let (_, at₂) = ensure-ok found _ a₁ a₂ p₂ in
          (
            o,
            ap (λ x. verify_args H cli pubkey_path x) (at₁ ∙ at₂) ∙ p₃ ∙ ap (λ x. (ok o, x)) at,
            same,
          )

  clean_up-LastIs :
      (e e' : Env H)
      → cli.clean ≡ true
      → clean_up H cli e ≡ (ok tt, e')
      → LastIs (changed (remove_file (update_btrfs_xz cli))) e'.trace
  unfolding clean_up change LastIs
  clean_up-LastIs e e' c h =
      let removes =
        change H (remove_file (update_signature_path cli))
        >> change H (remove_file (update_btrfs_xz cli)) in
      let same : clean_up H cli e ≡ removes e = rw c refl in
      let (_, e₁, _, h₁) =
        bind-ok (change H (remove_file (update_signature_path cli)))
          (λ _. change H (remove_file (update_btrfs_xz cli))) e e' tt (sym same ∙ h) in
      (e₁.trace, sym (ap (λ r. r.1.trace) h₁))

  -- With --clean, the last thing that a run that succeeds has done is to remove update.btrfs.xz. The
  -- package was to be made before it by tar, which was started and ended with any status.
  pub main-LastIs :
      (e e' : Env H)
      → cli.clean ≡ true
      → main H cli e ≡ (ok tt, e')
      → (tarball : Output) × (a b : Env H) × (pack H cli a ≡ (ok tarball, b))
        × LastIs (changed (remove_file (update_btrfs_xz cli))) e'.trace
  unfolding main
  main-LastIs e e' c h =
      let (_, e₁, _, h₁) = bind-ok _ _ e e' tt h in
      let (_, e₂, _, h₂) = bind-ok _ _ e₁ e' tt h₁ in
      let (_, e₃, _, h₃) = bind-ok _ _ e₂ e' tt h₂ in
      let (tarball, e₄, p₄, h₄) = bind-ok _ _ e₃ e' tt h₃ in
      (tarball, e₃, e₄, p₄, clean_up-LastIs e₄ e' c h₄)
