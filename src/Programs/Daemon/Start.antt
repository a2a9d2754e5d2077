-- ===== src/Programs/Daemon/Start.antt =====
-- src/bin/embuer-service.rs: with which configuration the service starts.
use embuer.Base.{
  ◌≡◌, refl, ap, sym, ◌∙◌, ◌==◌, Bool, true, false, Result, ok, err, if◌then◌else◌, ==→eq,
}
use embuer.Text.{Text, text}
use embuer.Error.{ServiceError, missing_configuration_error}
use embuer.Host.{Host, Env, Failure, error, panic, abort, pure, throw, handle, handle_end, ◌>>=◌}
use embuer.Host.Inversion.{bind-ok, ensure-ok, asks-ok}
use embuer.Config.{Config, default, load_from, rootfs_dir}
use embuer.Service.State.{ServiceInner}
use embuer.Service.Start as service
use embuer.Programs.Daemon.{System, cfg_path, or_default, load, serve, main}

-- What the service has when it starts.
pub record Started (X : System) (H : Host) (e : Env H) : Type 0 where
  pub is_root : X.uid ≡ 0
  pub config : Config
  -- the first of the two paths that exists, or the second
  pub path : Text
  pub chosen : path ≡ (
      if H.exists e.host (text "/usr/share/embuer/config.json")
      then text "/usr/share/embuer/config.json"
      else text "/etc/embuer/config.json")
  pub read : Env H
  pub loads : load_from X.config H path e ≡ (ok config, read)

module _ (X : System) (H : Host) where
  -- The default configuration has no directory, so that the service is not made of it.
  default_fails :
      (e e' : Env H) (inner : ServiceInner)
      → ¬ (service.new X.from_pkcs1_pem H default e ≡ (ok inner, e'))
  unfolding service.new rootfs_dir ◌>>=◌
  default_fails e e' inner h = cc (ap (λ r. r.0) h)

  serve_default : (e e' : Env H) (inner : ServiceInner) → ¬ (serve X H default e ≡ (ok inner, e'))
  unfolding serve
  serve_default e e' inner h =
      let (_, e₁, _, h₁) = bind-ok _ _ e e' inner h in
      let (i, e₂, p₂, _) = bind-ok _ _ e₁ e' inner h₁ in default_fails e₁ e₂ i p₂

  or_default-ok :
      (x : ServiceError) (e e' : Env H) (c : Config) → or_default X H x e ≡ (ok c, e') → c ≡ default
  unfolding or_default pure throw
  or_default-ok (missing_configuration_error p) e e' c h = cc (ap (λ r. r.0) h)
  or_default-ok x e e' c h = cc (ap (λ r. r.0) h)

  loaded :
      (r : Result Failure Config × Env H) (c : Config) (e' : Env H)
      → handle_end pure (or_default X H) r ≡ (ok c, e')
      → (c ≡ default → ⊥)
      → r ≡ (ok c, e')
  unfolding pure
  loaded (ok a, e) c e' h n = h
  loaded (err panic, e) c e' h n = cc (ap (λ r. r.0) h)
  loaded (err abort, e) c e' h n = cc (ap (λ r. r.0) h)
  loaded (err (error x), e) c e' h n = absurd (n (or_default-ok x e e' c h))

  chosen :
      (b : Bool)
      → cfg_path X H b
        ≡ (if b then text "/usr/share/embuer/config.json" else text "/etc/embuer/config.json")
  unfolding cfg_path
  chosen true = refl
  chosen false = refl

  -- The service starts only for root, and only with a configuration that was read from the first of
  -- its two paths that exists, or else from the second one. Without a configuration it does not
  -- start: the default one, with which the program goes on then, names no directory.
  pub main-Started :
      (e e' : Env H) (inner : ServiceInner) → main X H e ≡ (ok inner, e') → Started X H e
  unfolding main load handle
  main-Started e e' inner h =
      let (_, e₁, p₁, h₁) = bind-ok _ _ e e' inner h in
      let (root, at₁) = ensure-ok (X.uid == 0) _ e e₁ p₁ in
      let (config, e₂, p₂, h₂) = bind-ok _ _ e₁ e' inner h₁ in
      let (found, e₃, p₃, q₃) = bind-ok _ _ e₁ e₂ config p₂ in
      let (same, at₃) = asks-ok _ found e₁ e₃ p₃ in
      let at : e₃ ≡ e = sym (at₁ ∙ at₃) in
      let l =
        loaded (load_from X.config H (cfg_path X H found) e₃) config e₂ q₃
          (λ d. serve_default e₂ e' inner (ap (λ c. serve X H c e₂) (sym d) ∙ h₂)) in
      record {
        is_root = ==→eq X.uid 0 root;
        config = config;
        path = cfg_path X H found;
        chosen =
            ap (λ b. cfg_path X H b)
              (sym same
                ∙ ap (λ x. H.exists x.host (text "/usr/share/embuer/config.json")) (sym at₁))
            ∙ chosen _;
        read = e₂;
        loads = ap (λ x. load_from X.config H (cfg_path X H found) x) (sym at) ∙ l;
      }
