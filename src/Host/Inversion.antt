-- ===== src/Host/Inversion.antt =====
-- What is known of the parts of an action that has succeeded.
use embuer.Error.{ServiceError}
use embuer.Base.{Bool, true, false, ◌≡◌, refl, ap, Result, ok, err}
use embuer.Host.{Host, Env, Failure, M, continue, asks, ensure, pure, ◌>>=◌}

module _ {H : Host} {A B : Type 0} where
  -- A sequence that succeeds is one whose two parts succeed.
  pub bind-ok :
      (m : M H A) (f : A → M H B) (e e' : Env H) (b : B)
      → (m >>= f) e ≡ (ok b, e')
      → (a : A) × (e₁ : Env H) × (m e ≡ (ok a, e₁)) × (f a e₁ ≡ (ok b, e'))
  unfolding ◌>>=◌
  bind-ok m f e e' b h = go (m e) refl h
    where
      go :
          (r : Result Failure A × Env H)
          → m e ≡ r
          → continue f r ≡ (ok b, e')
          → (a : A) × (e₁ : Env H) × (m e ≡ (ok a, e₁)) × (f a e₁ ≡ (ok b, e'))
      go (ok a, e₁) p k = (a, e₁, p, k)
      go (err x, e₁) p k = cc (ap (λ r. r.0) k)

module _ {H : Host} {A : Type 0} where
  pub pure-ok : (a b : A) (e e' : Env H) → pure {H = H} a e ≡ (ok b, e') → (a ≡ b) × (e ≡ e')
  unfolding pure
  pure-ok a b e e' h = (cc (ap (λ r. r.0) h), ap (λ r. r.1) h)

  pub asks-ok :
      (f : H.State → A) (a : A) (e e' : Env H)
      → asks {H = H} (λ s. ok (f s)) e ≡ (ok a, e')
      → (f e.host ≡ a) × (e ≡ e')
  unfolding asks
  asks-ok f a e e' h = (cc (ap (λ r. r.0) h), ap (λ r. r.1) h)

module _ {H : Host} where
  pub ensure-ok :
      (b : Bool) (x : ServiceError) (e e' : Env H)
      → ensure {H = H} b x e ≡ (ok tt, e')
      → (b ≡ true) × (e ≡ e')
  unfolding ensure
  ensure-ok true x e e' h = (refl, ap (λ r. r.1) h)
  ensure-ok false x e e' h = cc (ap (λ r. r.0) h)
