-- ===== src/Install/Authentic.antt =====
-- src/core.rs, `install_update`: with a key, nothing of an update runs and the default subvolume
-- stays, unless the signature verifies for exactly the bytes that were received.
use mathlib.Core.Path.{subst}
use embuer.Base.{ℕ, List, ◌≡◌, refl, ◌⊎◌, inl, inr, Option, none, some, Result, ok, err}
use embuer.Text.{Text, join}
use embuer.Error.{ServiceError}
use embuer.Host.{Host, Env, receive, Failure, run_pipeline, continue, ◌>>=◌}
use embuer.Host.Trace.{Adds, Adds-refl, Adds-one, Adds-trans}
use embuer.Crypto.{Crypto, HashesByParts}
use embuer.Manifest.{Manifest}
use embuer.Signature.{PublicKey, Run, returned, panicked, verify_signature}
use embuer.Stream.{Reader, copy}
use embuer.Stream.Hashing
use embuer.Stream.Hashing.Laws.{HashOf, copy-HashOf}
use embuer.Receive.{command, receive_btrfs_stream}
use embuer.Install.{
  Received, inspect, lift_run, authenticate, activate, deploy, conclude, install_update,
}
use embuer.Install.Laws.{Prepares, receives, Emits-inspect, inspect-Yields}

abbrev pub IsRefused : {A : Type 0} → Result Failure A → Type 0
IsRefused (ok a) = ⊥
IsRefused (err x) = Unit

-- There is no deployment, and nothing but preparation was run.
abbrev pub OnlyPrepares : {H : Host} → Text → Env H → Result Failure (Option Text) → Env H → Type 0
OnlyPrepares dir e r e' = IsRefused r × Adds (Prepares dir) e.trace e'.trace

module _ (C : Crypto) (key : PublicKey) (signature : List ℕ) where
  -- The signature fits this hash.
  abbrev pub Verifies : Text → Type 0
  Verifies hash_hex = verify_signature C key signature hash_hex ≡ returned (ok tt)

  -- That, or the hash that the reader has computed verifies.
  abbrev Guarded :
      {H : Host} → Text → Option Text → Env H → Result Failure (Option Text) × Env H → Type 0
  Guarded dir hash e r = OnlyPrepares dir e r.0 r.1 ⊎ ((h : Text) × (hash ≡ some h) × Verifies h)

  module _ (from_str : Text → Result Text Manifest) (H : Host) (rootfs dir boot name : Text) where
    after_verdict :
        (hash : Option Text) (r : Received) (e e₁ : Env H)
        → hash ≡ some r.hash_hex
        → Adds (Prepares dir) e.trace e₁.trace
        → (v : Run (Result ServiceError (Unit {0})))
        → verify_signature C key signature r.hash_hex ≡ v
        → Guarded dir hash e
            (continue (λ _. activate H rootfs dir boot name r) (lift_run {H = H} v e₁))
    unfolding lift_run
    after_verdict hash r e e₁ p h (returned (ok _)) v = inr (r.hash_hex, p, v)
    after_verdict hash r e e₁ p h (returned (err x)) v = inl (tt, h)
    after_verdict hash r e e₁ p h panicked v = inl (tt, h)

    deploy-Guarded :
        (hash : Option Text) (e : Env H)
        → Guarded dir hash e
            (deploy C from_str H (some (key, signature)) rootfs dir boot hash name e)
    unfolding deploy authenticate ◌>>=◌
    deploy-Guarded hash e = go (inspect H from_str (join dir name) hash e) refl
      where
        go :
            (q : Result Failure Received × Env H)
            → inspect H from_str (join dir name) hash e ≡ q
            → Guarded dir hash e (
                continue
                  (λ r. authenticate C (some (key, signature)) r.hash_hex >>= λ _.
                    activate H rootfs dir boot name r)
                  q)
        go (err x, e₁) p = inl (tt, rw p at ((Emits-inspect H dir name from_str hash).at e))
        go (ok r, e₁) p =
            after_verdict hash r e e₁ ((inspect-Yields H dir name from_str hash).at e e₁ r p)
              (rw p at ((Emits-inspect H dir name from_str hash).at e)) _ refl

  module _ (from_str : Text → Result Text Manifest) (H : Host) (rootfs dir boot : Text) where
    conclude-Guarded :
        (hash : Option Text) (found : Result ServiceError (Option Text)) (e : Env H)
        → Guarded dir hash e
            (conclude C from_str H (some (key, signature)) rootfs dir boot hash found e)
    unfolding conclude ◌>>=◌
    conclude-Guarded hash (err x) e = inl (tt, Adds-refl e.trace)
    conclude-Guarded hash (ok none) e = inl (tt, Adds-refl e.trace)
    conclude-Guarded hash (ok (some n)) e = deploy-Guarded from_str H rootfs dir boot n hash e

    covers :
        (sha512 : List ℕ → List ℕ) (result : Option Text) (h : Text) (bytes : List ℕ)
        → HashOf C sha512 bytes result
        → result ≡ some h
        → Verifies h
        → Verifies (C.encode (sha512 bytes))
    covers sha512 result h bytes (inl e) p v = cc
    covers sha512 result h bytes (inr e) p v =
        let q : h ≡ C.encode (sha512 bytes) = cc in subst Verifies q v

    -- With a key, an installation whose signature does not verify for the hash of the bytes that the
    -- pipeline was fed ends with an error or a panic, and runs no command but those of `Prepares`: no
    -- script of the update, and no change of the default subvolume. This holds for every host,
    -- reader, manifest and panic.
    pub install_update-authentic :
        (sha512 : List ℕ → List ℕ)
        → HashesByParts C sha512
        → {S : Type 0} (poll_read : Reader S) (reader : S) (e : Env H)
        → let fed =
            (copy (Hashing.poll_read C poll_read) (H.reads e.host) (Hashing.new C reader)).0 in
          let result =
            install_update C from_str H poll_read
              (some (key, signature))
              rootfs
              dir
              boot
              reader
              e in
          OnlyPrepares dir e result.0 result.2 ⊎ Verifies (C.encode (sha512 fed))
    unfolding install_update receive_btrfs_stream run_pipeline
    install_update-authentic sha512 L poll_read reader e = elim (conclude-Guarded _ _ _) [
      | inl (r, h) ↦
          inl (r, Adds-trans e.trace (Adds-one e.trace (receive (command dir)) receives) h)
      | inr (h, p, v) ↦
          inr (covers sha512 _ h _ (copy-HashOf C sha512 L poll_read (H.reads e.host) reader) p v)
    ]
