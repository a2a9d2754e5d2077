-- ===== src/Programs/Keys/Overwrites.antt =====
-- src/bin/embuer-genkeys.rs: no file is overwritten.
use embuer.Base.{◌≡◌, refl, ◌⊎◌, inl, inr, true, false, ok, err, Bool-cases}
use embuer.Text.{Text}
use embuer.Host.{Host, Env, error, ◌>>=◌, continue}
use embuer.Programs.Keys.{Cli, exists_already, refuse_existing, main}

module _ (H : Host) (cli : Cli) where
  refused :
      (path : Text) (e : Env H)
      → H.exists e.host path ≡ true
      → refuse_existing H path e ≡ (err (error (exists_already path)), e)
  unfolding refuse_existing ◌>>=◌
  refused path e h = rw h refl

  allowed :
      (path : Text) (e : Env H)
      → H.exists e.host path ≡ false
      → refuse_existing H path e ≡ (ok tt, e)
  unfolding refuse_existing ◌>>=◌
  allowed path e h = rw h refl

  -- When one of the two files exists, the program ends with an error that names it, and has run
  -- nothing: the host is as it was.
  pub main-Refuses :
      (e : Env H)
      → (H.exists e.host cli.private_key_pem ≡ true) ⊎ (H.exists e.host cli.public_key_pem ≡ true)
      → (path : Text) × (H.exists e.host path ≡ true)
        × (main H cli e ≡ (err (error (exists_already path)), e))
  unfolding main ◌>>=◌
  main-Refuses e (inl h) = (cli.private_key_pem, h, rw (refused cli.private_key_pem e h) refl)
  main-Refuses e (inr h) = elim (Bool-cases (H.exists e.host cli.private_key_pem)) [
    | inl k ↦ (cli.private_key_pem, k, rw (refused cli.private_key_pem e k) refl)
    | inr k ↦ (
      cli.public_key_pem,
      h,
      rw (allowed cli.private_key_pem e k, continue, refused cli.public_key_pem e h) refl,
    )
  ]
