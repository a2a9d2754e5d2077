-- ===== src/Btrfs/Access.antt =====
-- src/btrfs.rs, `subvolume_set_ro` and `subvolume_set_rw`: what a success means.
use embuer.Base.{◌≡◌, refl, ap, ◌∙◌, ◌⊎◌, inl, inr, Bool, true, false, ok, if◌then◌else◌, not}
use embuer.Text.{Text, text, contains}
use embuer.Error.{ServiceError}
use embuer.Host.{Host, Env, M, pure, ensure, ◌>>=◌, ◌>>◌}
use embuer.Host.Inversion.{bind-ok, ensure-ok, pure-ok}
use embuer.Btrfs.Change.{get_property, set_property, subvolume_set_ro, subvolume_set_rw}

-- The last question for the properties of the subvolume has been answered without `other`, or with
-- `wanted`.
pub record Answers (H : Host) (path other wanted : Text) (e' : Env H) : Type 0 where
  pub e : Env H
  pub answer : Text
  pub asks : get_property H path e ≡ (ok answer, e')
  pub answered : (contains other answer ≡ false) ⊎ (contains wanted answer ≡ true)

module _ (H : Host) (path other wanted value : Text) (x : ServiceError) where
  -- The answer is what it should be, or the property is set and asked for again.
  abbrev turn : Bool → M H (Unit {0})
  turn b = if not b then pure tt else do
    set_property H path value
    after ← get_property H path
    ensure (contains wanted after) x

  turn-Answers :
      (b : Bool) (answer : Text) (e₁ e₂ e' : Env H)
      → contains other answer ≡ b
      → get_property H path e₁ ≡ (ok answer, e₂)
      → turn b e₂ ≡ (ok tt, e')
      → Answers H path other wanted e'
  turn-Answers false answer e₁ e₂ e' c p h = record {
    e = e₁;
    answer = answer;
    asks = p ∙ ap (λ z. (ok answer, z)) (pure-ok tt tt e₂ e' h).1;
    answered = inl c;
  }
  turn-Answers true answer e₁ e₂ e' c p h =
      let (said, e₃, q, h₃) = bind-ok _ _ e₂ e' tt h in
      let (after, e₄, r, h₄) = bind-ok _ _ e₃ e' tt h₃ in
      let (holds, same) = ensure-ok (contains wanted after) x e₄ e' h₄ in
      record {
        e = e₃;
        answer = after;
        asks = r ∙ ap (λ z. (ok after, z)) same;
        answered = inr holds;
      }

module _ (H : Host) (path : Text) (e e' : Env H) where
  -- A success ends with an answer that shows the subvolume as read-only: it does not have "ro=false",
  -- or it has "ro=true".
  pub subvolume_set_ro-Answers :
      subvolume_set_ro H path e ≡ (ok tt, e') → Answers H path (text "ro=false") (text "ro=true") e'
  unfolding subvolume_set_ro
  subvolume_set_ro-Answers h =
      let (is, e₁, p₁, h₁) = bind-ok _ _ e e' tt h in
      let (_, e₂, p₂, h₂) = bind-ok _ _ e₁ e' tt h₁ in
      let (state, e₃, p₃, h₃) = bind-ok _ _ e₂ e' tt h₂ in
      turn-Answers H path (text "ro=false") (text "ro=true") (text "true") _ _ state e₂ e₃ e' refl
        p₃ h₃

  -- A success ends with an answer that shows the subvolume as writable: it does not have "ro=true",
  -- or it has "ro=false".
  pub subvolume_set_rw-Answers :
      subvolume_set_rw H path e ≡ (ok tt, e') → Answers H path (text "ro=true") (text "ro=false") e'
  unfolding subvolume_set_rw
  subvolume_set_rw-Answers h =
      let (is, e₁, p₁, h₁) = bind-ok _ _ e e' tt h in
      let (_, e₂, p₂, h₂) = bind-ok _ _ e₁ e' tt h₁ in
      let (state, e₃, p₃, h₃) = bind-ok _ _ e₂ e' tt h₂ in
      turn-Answers H path (text "ro=true") (text "ro=false") (text "false") _ _ state e₂ e₃ e' refl
        p₃ h₃
