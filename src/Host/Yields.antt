-- ===== src/Host/Yields.antt =====
-- What an action returns: `Yields Q m` says that each value that `m` returns satisfies `Q`.
use mathlib.Core.Path.{subst}
use embuer.Base.{◌≡◌, refl, Result, ok, err}
use embuer.Error.{ServiceError}
use embuer.Host.{
  Host, Env, Failure, error, panic, abort, M, pure, throw, continue, ◌>>=◌, handle_end, handle,
}

pub record Yields {H : Host} {A : Type 0} (Q : A → Type 0) (m : M H A) : Type 0 where
  pub at : (e e' : Env H) (a : A) → m e ≡ (ok a, e') → Q a

module _ {H : Host} {A : Type 0} {Q : A → Type 0} where
  pub Yields-pure : (a : A) → Q a → Yields {H = H} Q (pure a)
  unfolding pure
  Yields-pure a q = record { at = λ e e' b h. let p : a ≡ b = cc in subst Q p q }

  pub Yields-throw : (x : ServiceError) → Yields {H = H} Q (throw x)
  unfolding throw
  Yields-throw x = record { at = λ e e' b h. cc }

module _ {H : Host} {A B : Type 0} {R : B → Type 0} where
  continue-Yields :
      (f : A → M H B) (r : Result Failure A × Env H)
      → ((a : A) (e : Env H) → r ≡ (ok a, e) → Yields {H = H} R (f a))
      → (e' : Env H) (b : B) → continue f r ≡ (ok b, e')
      → R b
  continue-Yields f (ok a, e) hf e' b h = (hf a e refl).at e e' b h
  continue-Yields f (err x, e) hf e' b h = cc

  pub Yields-bind :
      {Q : A → Type 0} (m : M H A) (f : A → M H B)
      → Yields {H = H} Q m
      → ((a : A) → Q a → Yields {H = H} R (f a))
      → Yields {H = H} R (m >>= f)
  unfolding ◌>>=◌
  Yields-bind m f hm hf = record {
    at = λ e e' b h. continue-Yields f (m e) (λ a e₁ p. hf a (hm.at e e₁ a p)) e' b h;
  }

module _ {H : Host} {A B : Type 0} {R : B → Type 0} where
  handle_end-Yields :
      (f : A → M H B) (g : ServiceError → M H B) (r : Result Failure A × Env H)
      → ((a : A) → Yields {H = H} R (f a))
      → ((x : ServiceError) → Yields {H = H} R (g x))
      → (e' : Env H) (b : B) → handle_end f g r ≡ (ok b, e')
      → R b
  handle_end-Yields f g (ok a, e) hf hg e' b h = (hf a).at e e' b h
  handle_end-Yields f g (err (error x), e) hf hg e' b h = (hg x).at e e' b h
  handle_end-Yields f g (err panic, e) hf hg e' b h = cc
  handle_end-Yields f g (err abort, e) hf hg e' b h = cc

  pub Yields-handle :
      (m : M H A) (f : A → M H B) (g : ServiceError → M H B)
      → ((a : A) → Yields {H = H} R (f a))
      → ((x : ServiceError) → Yields {H = H} R (g x))
      → Yields {H = H} R (handle m f g)
  unfolding handle
  Yields-handle m f g hf hg = record { at = λ e e' b h. handle_end-Yields f g (m e) hf hg e' b h }

  -- The value of `m` does not matter.
  pub Yields-then :
      (m : M H A) (f : A → M H B) → ((a : A) → Yields {H = H} R (f a)) → Yields {H = H} R (m >>= f)
  Yields-then m f hf =
      Yields-bind {Q = λ _. Unit {0}} m f (record { at = λ e e' a h. tt }) (λ a _. hf a)
