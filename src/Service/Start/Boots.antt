-- ===== src/Service/Start/Boots.antt =====
-- src/service.rs, `Service::new`: which deployment the service takes for the running one.
use mathlib.Core.Path.{subst}
use embuer.Base.{
  ℕ, List, [], ◌∷◌, ◌≡◌, ap, inl, inr, Bool-cases, Option, none, some, ok, ok_or, arith, ◌==◌,
  ==→eq,
}
use embuer.Text.{Text}
use embuer.Error.{ServiceError}
use embuer.Host.{Host, Env, lift}
use embuer.Host.Inversion.{bind-ok, pure-ok}
use embuer.Signature.{PublicKey}
use embuer.Config.{Config}
use embuer.Btrfs.Query.{Deployment, subvolume_get_default, list_deployment_subvolumes}
use embuer.Service.State.{ServiceInner}
use embuer.Service.Clear.Protects.{Listed}
use embuer.Service.Start.{name_of, new}

name_of-Listed :
    (id : ℕ) (ds : List Deployment) (name : Text)
    → name_of id ds ≡ some name
    → (path : Text) × Listed (name, id, path) ds
unfolding name_of
name_of-Listed id [] name h = let no : ⊥ = cc in elim no [ ]
name_of-Listed id ((n, i, path) ∷ ds) name h = elim (Bool-cases (i == id)) [
  | inl same ↦ let e : i ≡ id = ==→eq i id same in let f : n ≡ name = ground arith in (path, inl cc)
  | inr other ↦
      let g : name_of id ds ≡ some name = ground arith in
      let (p, l) = name_of-Listed id ds name g in (p, inr l)
]

named :
    {H : Host} (x : ServiceError) (found : Option Text) (e e' : Env H) (name : Text)
    → lift {H = H} (ok_or x found) e ≡ (ok name, e')
    → found ≡ some name
unfolding lift
named x none e e' name h = cc (ap (λ r. r.0) h)
named x (some n) e e' name h = cc (ap (λ r. r.0) h)

-- The deployments that were listed, and where the running one stands among them.
pub record Boots (H : Host) (inner : ServiceInner) : Type 0 where
  pub before : Env H
  pub between : Env H
  pub after : Env H
  pub deployments : List Deployment
  pub path : Text
  pub default : subvolume_get_default H inner.rootfs_dir before ≡ (ok inner.boot_id, between)
  pub list : list_deployment_subvolumes H inner.deployments_dir between ≡ (ok deployments, after)
  pub running : Listed (inner.boot_name, inner.boot_id, path) deployments

-- A service that starts has recorded the number that was the default at its start, and the name of
-- a deployment that was listed with that number.
pub new-Boots :
    (from_pkcs1_pem : Text → Option PublicKey) (H : Host) (config : Config) (e e' : Env H)
    (inner : ServiceInner)
    → new from_pkcs1_pem H config e ≡ (ok inner, e')
    → Boots H inner
unfolding new
new-Boots from_pkcs1_pem H config e e' inner h =
    let (rootfs, e₁, p₁, h₁) = bind-ok _ _ e e' inner h in
    let (dir, e₂, p₂, h₂) = bind-ok _ _ e₁ e' inner h₁ in
    let (pem, e₃, p₃, h₃) = bind-ok _ _ e₂ e' inner h₂ in
    let (key, e₄, p₄, h₄) = bind-ok _ _ e₃ e' inner h₃ in
    let (id, e₅, p₅, h₅) = bind-ok _ _ e₄ e' inner h₄ in
    let (ds, e₆, p₆, h₆) = bind-ok _ _ e₅ e' inner h₅ in
    let (name, e₇, p₇, h₇) = bind-ok _ _ e₆ e' inner h₆ in
    let (same, at) = pure-ok _ _ e₇ e' h₇ in
    let (path, running) = name_of-Listed id ds name (named _ _ e₆ e₇ name p₇) in
    subst (Boots H) same (record {
      before = e₄;
      between = e₅;
      after = e₆;
      deployments = ds;
      path = path;
      default = p₅;
      list = p₆;
      running = running;
    })
