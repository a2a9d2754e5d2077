-- ===== src/Service/Clear/Protects.antt =====
-- src/service.rs, `clear_old_deployments`: what it never deletes.
use embuer.Base.{
  ℕ, List, [], ◌∷◌, ◌≡◌, ◌≢◌, refl, false, Option, none, some, Result, ok, err, map_err, ◌==◌, ◌||◌,
  Bool-cases, inl, inr, ◌⊎◌, arith,
}
use embuer.Text.{Text, join}
use embuer.Host.{
  Host, Env, Event, btrfs, script, continue, ◌>>=◌, error, handle, handle_end, asks, lift, pure,
}
use embuer.Host.Trace.{Adds, Adds-refl, Emits, Emits-bind, emit_rules}
use embuer.Manifest.{Manifest, new, from_file}
use embuer.Install.{manifest_path}
use embuer.Error.{json_error}
use embuer.Btrfs.Query.{Deployment, subvolume_get_default, list_deployment_subvolumes}
use embuer.Btrfs.Change.{delete_args}
use embuer.Btrfs.Laws.{Emits-subvolume_delete}
use embuer.Service.State.{ServiceInner}
use embuer.Service.Clear.{
  run_uninstall_script, uninstall, delete_old, run_declared, clear_one, clear_all,
  clear_old_deployments,
}

-- A deployment that may go: not the running one, and not the one of the next boot.
pub record IsOld (boot_id current_id id : ℕ) : Type 0 where
  pub not_running : id ≢ boot_id
  pub not_next : id ≢ current_id

-- `d` stands in the list.
abbrev pub Listed : Deployment → List Deployment → Type 0
Listed d [] = ⊥
Listed d (c ∷ ds) = (d ≡ c) ⊎ Listed d ds

-- The manifest of the deployment at `path`, as the host gives it at some time, declares this script
-- for the uninstallation.
pub record Declares (from_str : Text → Result Text Manifest) (H : Host) (path s : Text)
    : Type 0 where
  pub at : H.State
  pub json_str : Text
  pub manifest : Manifest
  pub reads : H.read_to_string at (manifest_path path) ≡ ok json_str
  pub parses : from_str json_str ≡ ok manifest
  pub declared : manifest.uninstall_script ≡ some s

-- The commands that clearing may run: it deletes a listed deployment that is old, behind the
-- uninstall script that its manifest declares.
pub data Clears (from_str : Text → Result Text Manifest) (H : Host) (inner : ServiceInner)
    (current_id : ℕ) (ds : List Deployment) : Event → Type 0 where
  deletes :
      (name : Text) (id : ℕ) (path : Text)
      → Listed (name, id, path) ds
      → IsOld inner.boot_id current_id id
      → Clears from_str H inner current_id ds (btrfs (delete_args path))
  uninstalls :
      (name : Text) (id : ℕ) (path s : Text)
      → Listed (name, id, path) ds
      → IsOld inner.boot_id current_id id
      → Declares from_str H path s
      → Clears from_str H inner current_id ds
          (script (join path s) (inner.rootfs_dir ∷ inner.deployments_dir ∷ name ∷ []))

module _ (from_str : Text → Result Text Manifest) (H : Host) (inner : ServiceInner) where
  module _ {P : Event → Type 0} (name path : Text)
      (h : (s : Text)
        → Declares from_str H path s
        → P (script (join path s) (inner.rootfs_dir ∷ inner.deployments_dir ∷ name ∷ []))) where
    Emits-run_declared :
        (script_name : Option Text)
        → ((s : Text) → script_name ≡ some s → Declares from_str H path s)
        → Emits {H = H} P (run_declared from_str H inner script_name name path)
    unfolding run_declared run_uninstall_script
    Emits-run_declared none d = search emit_rules
    Emits-run_declared (some s) d = let p = h s (d s refl) in search (emit_rules, p)

    -- What the host has at the manifest's path, and what its text is parsed to.
    uninstall-Adds :
        (e : Env H) (r : Result Text Text)
        → H.read_to_string e.host (manifest_path path) ≡ r
        → Adds P e.trace (uninstall from_str H inner name path e).1.trace
    unfolding uninstall from_file new handle asks lift ◌>>=◌ pure
    uninstall-Adds e (err x) p = rw p (Adds-refl e.trace)
    uninstall-Adds e (ok json_str) p = rw p (parsed (from_str json_str) refl)
      where
        parsed :
            (m : Result Text Manifest)
            → from_str json_str ≡ m
            → Adds P e.trace
                (handle_end
                  (λ manifest. run_declared from_str H inner manifest.uninstall_script name path)
                  (λ x. pure tt)
                  (map_err error (map_err json_error m), e)).1.trace
        parsed (err x) q = Adds-refl e.trace
        parsed (ok manifest) q =
            (Emits-run_declared manifest.uninstall_script (λ s d. record {
              at = e.host;
              json_str = json_str;
              manifest = manifest;
              reads = p;
              parses = q;
              declared = d;
            })).at
              e

    Emits-uninstall : Emits {H = H} P (uninstall from_str H inner name path)
    Emits-uninstall = record { at = λ e. uninstall-Adds e _ refl }

    Emits-delete_old :
        P (btrfs (delete_args path)) → Emits {H = H} P (delete_old from_str H inner name path)
    unfolding delete_old
    Emits-delete_old d =
        Emits-bind _ _ Emits-uninstall (λ x. search (emit_rules, Emits-subvolume_delete))

  module _ (current_id : ℕ) (all : List Deployment) where
    Emits-clear_one :
        (d : Deployment)
        → Listed d all
        → Emits {H = H}
            (Clears from_str H inner current_id all)
            (clear_one from_str H inner current_id d)
    unfolding clear_one
    Emits-clear_one (name, id, path) l =
        elim (Bool-cases (id == inner.boot_id || id == current_id)) [
          | inl kept ↦ rw kept (search emit_rules)
          | inr goes ↦
              let old : IsOld inner.boot_id current_id id = is_old goes in
              rw goes (
                Emits-delete_old name path (λ s d. uninstalls name id path s l old d)
                  (deletes name id path l old))
        ]
      where
        is_old :
            (id == inner.boot_id || id == current_id) ≡ false → IsOld inner.boot_id current_id id
        is_old h = ground arith

    Emits-clear_all :
        (ds : List Deployment)
        → ((d : Deployment) → Listed d ds → Listed d all)
        → Emits {H = H}
            (Clears from_str H inner current_id all)
            (clear_all from_str H inner current_id ds)
    unfolding clear_all
    Emits-clear_all [] l = search emit_rules
    Emits-clear_all (d ∷ ds) l =
        let one = Emits-clear_one d (l d (inl refl)) in
        let more = Emits-clear_all ds (λ c m. l c (inr m)) in search (emit_rules, one, more)

  -- Clearing runs no command but these, once the default subvolume is known to be `current_id` and
  -- the deployments are listed: the deletion of a listed deployment that is neither the running
  -- one nor the one of the next boot, and the uninstall script that the
  -- manifest of such a deployment declares, as the host gives it at some time. What the
  -- host answers, and whether the clearing succeeds, is not restricted.
  pub clear_old_deployments-Clears :
      (e e₁ e₂ : Env H) (current_id : ℕ) (ds : List Deployment)
      → subvolume_get_default H inner.rootfs_dir e ≡ (ok current_id, e₁)
      → list_deployment_subvolumes H inner.deployments_dir e₁ ≡ (ok ds, e₂)
      → Adds
          (Clears from_str H inner current_id ds)
          e₂.trace
          (clear_old_deployments from_str H inner e).1.trace
  unfolding clear_old_deployments ◌>>=◌
  clear_old_deployments-Clears e e₁ e₂ current_id ds default list =
      rw (default, continue, list, continue) ((Emits-clear_all current_id ds ds (λ d m. m)).at e₂)
