-- ===== src/Install/Laws.antt =====
-- src/core.rs, `install_update`: what runs before the signature is verified, and what a success
-- means.
use embuer.Base.{◌≡◌, Option, none, some, Result}
use embuer.Text.{Text, text, join}
use embuer.Host.{Host, Event, btrfs, receive}
use embuer.Host.Trace.{Emits, emit_rules}
use embuer.Host.Yields.{Yields, Yields-pure, Yields-throw, Yields-bind, Yields-handle, Yields-then}
use embuer.Manifest.{Manifest}
use embuer.Manifest.Laws.{Emits-from_file}
use embuer.Receive.{command}
use embuer.Btrfs.Change.{delete_args}
use embuer.Btrfs.Laws.{
  show_args, get_property_args, set_property_args, Emits-btrfs_subvol_get_id,
  Emits-subvolume_set_rw, Emits-subvolume_delete,
}
use embuer.Install.{
  discard, subvol_id, check_manifest, read_manifest, set_writable, take_hash, Received, inspect,
}

-- The commands that may run before an update is known to be genuine: the reception, questions
-- about the subvolume, its property "ro", and its deletion. None of them is a script of the
-- update, or changes the default subvolume.
pub data Prepares (deployments_dir : Text) : Event → Type 0 where
  receives : Prepares deployments_dir (receive (command deployments_dir))
  shows : (name : Text) → Prepares deployments_dir (btrfs (show_args (join deployments_dir name)))
  asks_property :
      (name : Text)
      → Prepares deployments_dir (btrfs (get_property_args (join deployments_dir name)))
  unseals :
      (name : Text)
      → Prepares deployments_dir
          (btrfs (set_property_args (join deployments_dir name) (text "false")))
  deletes :
      (name : Text) → Prepares deployments_dir (btrfs (delete_args (join deployments_dir name)))

module _ (H : Host) (dir name : Text) where
  Emits-discard :
      {A : Type 0} (why : Text)
      → Emits {H = H} (Prepares dir) {A = A} (discard H (join dir name) why)
  unfolding discard
  Emits-discard why = search (emit_rules, Emits-subvolume_delete, deletes)

  Emits-take_hash :
      (hash : Option Text) → Emits {H = H} (Prepares dir) (take_hash H (join dir name) hash)
  unfolding take_hash
  Emits-take_hash none = search Emits-discard
  Emits-take_hash (some h) = search emit_rules

  Emits-subvol_id : Emits {H = H} (Prepares dir) (subvol_id H (join dir name))
  unfolding subvol_id
  Emits-subvol_id = search (emit_rules, Emits-btrfs_subvol_get_id, shows)

  Emits-check_manifest : Emits {H = H} (Prepares dir) (check_manifest H (join dir name))
  unfolding check_manifest
  Emits-check_manifest = search (emit_rules, Emits-discard)

  Emits-read_manifest :
      (from_str : Text → Result Text Manifest)
      → Emits {H = H} (Prepares dir) (read_manifest H from_str (join dir name))
  unfolding read_manifest
  Emits-read_manifest from_str = search (emit_rules, Emits-discard, Emits-from_file)

  Emits-set_writable :
      (manifest : Manifest) → Emits {H = H} (Prepares dir) (set_writable H manifest (join dir name))
  unfolding set_writable
  Emits-set_writable manifest =
      search (emit_rules, Emits-subvolume_set_rw, asks_property name, unseals name)

  pub Emits-inspect :
      (from_str : Text → Result Text Manifest) (hash : Option Text)
      → Emits {H = H} (Prepares dir) (inspect H from_str (join dir name) hash)
  unfolding inspect
  Emits-inspect from_str hash =
      search
        (
          emit_rules, Emits-subvol_id, Emits-check_manifest, Emits-read_manifest,
          Emits-set_writable, Emits-take_hash,
        )
        depth 8

  take_hash-Yields :
      (hash : Option Text) → Yields {H = H} (λ h. hash ≡ some h) (take_hash H (join dir name) hash)
  unfolding take_hash discard
  take_hash-Yields none = search (Yields-handle, Yields-throw)
  take_hash-Yields (some h) = search Yields-pure

  pub inspect-Yields :
      (from_str : Text → Result Text Manifest) (hash : Option Text)
      → Yields {H = H}
          (λ (r : Received). hash ≡ some r.hash_hex)
          (inspect H from_str (join dir name) hash)
  unfolding inspect
  inspect-Yields from_str hash = Yields-then _ _ λ id. Yields-then _ _ λ _.
      Yields-then _ _ λ manifest.
        Yields-then _ _ λ _. Yields-bind _ _ (take_hash-Yields hash) λ h p. Yields-pure _ p
